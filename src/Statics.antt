-- ===== src/Statics.antt =====
-- A static pointer to a struct that is made at its first use: NULL, the struct, or the address of a
-- struct that has been freed.
use practice_project.Prelude.{Option, none, some, Bool, if◌then◌else◌}

pub data Static (H : Type 0) : Type 0 where
  null : Static H
  live : H → Static H
  freed : Static H

module _ {H : Type 0} where
  -- What the pointer points to; a use of NULL or of a freed struct is a fault.
  abbrev pub deref : Static H → Option H
  deref null = none
  deref (live h) = some h
  deref freed = none

  -- `if (!pointer) pointer = ...`. The allocations, `mem` says whether they succeed, are written
  -- through untested. A freed pointer is not NULL.
  abbrev pub make_if_null : (mem : Bool) → H → Static H → Option (Static H)
  make_if_null mem new null = if mem then some (live new) else none
  make_if_null mem new (live h) = some (live h)
  make_if_null mem new freed = some freed
