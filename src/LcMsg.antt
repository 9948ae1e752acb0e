-- ===== src/LcMsg.antt =====
-- c/old_practice/work_srcs/socket_udp/common/lcmsg/lcmsg.c: messages and their checksum. A message
-- is a union, which stands here as its bytes: the struct's fields lie at 0, 4, 8 and 12, an `int`
-- with its lowest byte first, and the checksum follows the struct.
pub mod CheckSum
pub mod Fields
pub mod Heads
mod Tests
use practice_project.Prelude.{
  ℕ, zero, suc, ◌+◌, ◌*◌, ◌/◌, ◌%◌, ◌^◌, List, [], ◌∷◌, Option, none, some, ◌>>=◌, ◌==◌,
  if◌then◌else◌, replicate,
}
use practice_project.Array.{load, store}
use practice_project.Memory.{write_bytes}

-- `LCMSG_DATA_MAXLEN`, `sizeof(struct __LcMsg)` and `sizeof(LcMsg)`.
abbrev pub lcmsg_data_maxlen : ℕ
lcmsg_data_maxlen = 256

abbrev pub msg_size : ℕ
msg_size = 268

abbrev pub lc_msg_size : ℕ
lc_msg_size = 272

pub data MsgType : Type 0 where
  unknow_msg_type save_cli_info data_msg : MsgType

-- The values of the enumeration.
abbrev pub code : MsgType → ℕ
code unknow_msg_type = 0
code save_cli_info = 1
code data_msg = 2

-- The bytes of an `int`, given as a number below 2 ^ 32.
abbrev pub int_bytes : ℕ → List ℕ
int_bytes v = v % 2 ^ 8 ∷ v / 2 ^ 8 % 2 ^ 8 ∷ v / 2 ^ 16 % 2 ^ 8 ∷ v / 2 ^ 24 % 2 ^ 8 ∷ []

-- `ClearMsgBuf`.
pub clear_msg_buf : List ℕ → MsgType → Option (List ℕ)
clear_msg_buf m msg_type = do
  a ← write_bytes m 0 (int_bytes (code msg_type))
  write_bytes a 12 (replicate lcmsg_data_maxlen 0)

-- `InitTxBuf`; `lc_end_id` is what the modules manager holds.
pub init_tx_buf : (lc_end_id : ℕ) → List ℕ → (dest_end_id : ℕ) → Option (List ℕ)
init_tx_buf lc_end_id m dest_end_id = do
  a ← write_bytes m 0 (int_bytes (code data_msg))
  b ← write_bytes a 4 (int_bytes lc_end_id)
  c ← write_bytes b 8 (int_bytes dest_end_id)
  write_bytes c 12 (replicate lcmsg_data_maxlen 0)

-- `InitRxBuf`.
pub init_rx_buf : List ℕ → Option (List ℕ)
init_rx_buf m = write_bytes m 0 (replicate lc_msg_size 0)

-- `sum = (sum + msgBuf->tmp[i]) & 0xff` for the rounds that are left.
pub sum_bytes : ℕ → (i sum : ℕ) → List ℕ → Option ℕ
sum_bytes zero i sum m = some sum
sum_bytes (suc n) i sum m = do x ← load m i; sum_bytes n (i + 1) ((sum + x) % 2 ^ 8) m

-- `SetCheckSum`.
pub set_check_sum : List ℕ → Option (List ℕ)
set_check_sum m = do sum ← sum_bytes msg_size 0 0 m; store m msg_size sum

-- `CheckCheckSum`.
pub check_check_sum : List ℕ → Option ℕ
check_check_sum m = do
  sum ← sum_bytes msg_size 0 0 m
  x ← load m msg_size
  some (if sum == x then 1 else 0)
