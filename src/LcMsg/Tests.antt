-- ===== src/LcMsg/Tests.antt =====
-- A message of zeros passes.
use practice_project.Prelude.{ℕ, ◌≡◌, ◌≢◌, refl, List, some, arith, length, set, replicate}
use practice_project.Array.{get! }
use practice_project.LcMsg.{
  msg_size, lc_msg_size, set_check_sum, check_check_sum, sum_bytes, init_rx_buf, clear_msg_buf,
  save_cli_info,
}
use practice_project.Memory.{write_bytes}
use practice_project.LcMsg.CheckSum.{check_check_sum-set_check_sum, check_check_sum-detects}

abbrev zeros : List ℕ
zeros = replicate lc_msg_size 0

zeros-passed : check_check_sum zeros ≡ some 1
unfolding check_check_sum sum_bytes
zeros-passed = refl

check_check_sum-set_check_sum_example :
    (b : List ℕ) × (set_check_sum zeros ≡ some b)
    × (check_check_sum b ≡ some 1)
    × (length b ≡ length zeros)
    × ((k : ℕ) → k ≢ msg_size → get! b k ≡ get! zeros k)
check_check_sum-set_check_sum_example = check_check_sum-set_check_sum zeros (omega arith)

zero_at : get! zeros 20 ≡ 0
unfolding get!
zero_at = refl

check_check_sum-detects_example : check_check_sum (set zeros 20 7) ≡ some 0
check_check_sum-detects_example =
    check_check_sum-detects zeros 20 7 (omega arith) zeros-passed (omega arith)
      (omega (arith, zero_at)) (omega arith) (omega (arith, zero_at))

init_rx_buf-zeros : init_rx_buf zeros ≡ some zeros
unfolding init_rx_buf write_bytes
init_rx_buf-zeros = refl

clear_msg_buf-zeros : clear_msg_buf zeros save_cli_info ≡ some (set zeros 0 1)
unfolding clear_msg_buf write_bytes
clear_msg_buf-zeros = refl
