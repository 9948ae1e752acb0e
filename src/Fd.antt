-- ===== src/Fd.antt =====
-- `CHECK_FD` of c/old_practice/work_srcs/socket/common/pre_modules/pre_modules.h.
use practice_project.Prelude.{ℕ, Option, none, some, Bool, false, ltb}

-- The descriptor is none of the three standard ones; `none` is -1.
abbrev pub check_fd : Option ℕ → Bool
check_fd none = false
check_fd (some fd) = ltb 2 fd
