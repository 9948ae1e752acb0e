-- ===== src/LcMsg/Fields.antt =====
-- The fields of a message that is made ready.
use practice_project.Prelude.{
  ℕ, ◌+◌, ◌*◌, ◌/◌, ◌%◌, ◌^◌, ◌≤◌, ◌<◌, ◌≡◌, ap, ◌∙◌, List, some, arith, length, replicate,
  length-replicate, Returns, Returns-bind, Returns-mono, Returns-value, inl, inr,
}
use mathlib.Core.Path.{subst}
use practice_project.Array.{get! }
use practice_project.Memory.{bytes_at, write_bytes, write_bytes-Written}
use practice_project.LcMsg.{lcmsg_data_maxlen, msg_size, data_msg, code, int_bytes, init_tx_buf}

-- The `int` at an offset.
abbrev pub read_int : List ℕ → ℕ → ℕ
read_int m off =
    get! m off + 2 ^ 8 * get! m (off + 1) + 2 ^ 16 * get! m (off + 2) + 2 ^ 24 * get! m (off + 3)

-- What a write of an `int` leaves.
pub record IntWritten (m : List ℕ) (off v : ℕ) (b : List ℕ) : Type 0 where
  pub same_length : length b ≡ length m
  pub there : read_int b off ≡ v
  pub before : (k : ℕ) → k < off → get! b k ≡ get! m k
  pub after : (k : ℕ) → off + 4 ≤ k → get! b k ≡ get! m k

int_split :
    (v : ℕ)
    → v < 2 ^ 32
    → v % 2 ^ 8
        + 2 ^ 8 * (v / 2 ^ 8 % 2 ^ 8)
        + 2 ^ 16 * (v / 2 ^ 16 % 2 ^ 8)
        + 2 ^ 24 * (v / 2 ^ 24 % 2 ^ 8)
      ≡ v
int_split v h = omega arith

pub write_int :
    (m : List ℕ) (off v : ℕ)
    → v < 2 ^ 32
    → off + 4 ≤ length m
    → Returns (IntWritten m off v) (write_bytes m off (int_bytes v))
unfolding get!
write_int m off v small room = Returns-mono (write_bytes-Written (int_bytes v) m off room) λ b w.
    record {
      same_length = w.same_length;
      there =
          let two : off + 1 + 1 ≡ off + 2 = omega arith in
          let three : off + 1 + 1 + 1 ≡ off + 3 = omega arith in
          let e0 : get! b off ≡ v % 2 ^ 8 = ap (λ l. get! l 0) w.there in
          let e1 : get! b (off + 1) ≡ v / 2 ^ 8 % 2 ^ 8 = ap (λ l. get! l 1) w.there in
          let e2 : get! b (off + 1 + 1) ≡ v / 2 ^ 16 % 2 ^ 8 = ap (λ l. get! l 2) w.there in
          let e3 : get! b (off + 1 + 1 + 1) ≡ v / 2 ^ 24 % 2 ^ 8 = ap (λ l. get! l 3) w.there in
          rw (← two, ← three, e0, e1, e2, e3) (int_split v small);
      before = λ k lt. w.others k (inl lt);
      after = λ k le. w.others k (inr le);
    }

pub read_int-same :
    (b m : List ℕ) (off : ℕ)
    → ((k : ℕ) → off ≤ k → k < off + 4 → get! b k ≡ get! m k)
    → read_int b off ≡ read_int m off
read_int-same b m off same = rw (
  same off (omega arith) (omega arith),
  same (off + 1) (omega arith) (omega arith),
  same (off + 2) (omega arith) (omega arith),
  same (off + 3) (omega arith) (omega arith),
)

-- What `InitTxBuf` leaves: the type, the two ends and no data, and the bytes past the struct.
pub record TxReady (m : List ℕ) (lc_end_id dest_end_id : ℕ) (b : List ℕ) : Type 0 where
  pub same_length : length b ≡ length m
  pub msg_type : read_int b 0 ≡ code data_msg
  pub src_end_id : read_int b 4 ≡ lc_end_id
  pub dest : read_int b 8 ≡ dest_end_id
  pub no_data : bytes_at b 12 lcmsg_data_maxlen ≡ replicate lcmsg_data_maxlen 0
  pub rest : (k : ℕ) → msg_size ≤ k → get! b k ≡ get! m k

-- For every message, and two ends that are `int`s, `InitTxBuf` stays in bounds and leaves the type
-- DataMsg, the two ends and data of zeros; the bytes past the struct are unchanged.
pub init_tx_buf-TxReady :
    (m : List ℕ) (lc_end_id dest_end_id : ℕ)
    → msg_size < length m
    → lc_end_id < 2 ^ 32
    → dest_end_id < 2 ^ 32
    → (b : List ℕ) × (init_tx_buf lc_end_id m dest_end_id ≡ some b)
      × TxReady m lc_end_id dest_end_id b
unfolding init_tx_buf
init_tx_buf-TxReady m src dst room small small' =
    let zeros : List ℕ = replicate lcmsg_data_maxlen 0 in
    let size : length zeros ≡ lcmsg_data_maxlen = length-replicate {A = ℕ} lcmsg_data_maxlen 0 in
    Returns-value (
      Returns-bind (write_int m 0 (code data_msg) (omega arith) (omega arith)) λ a wa.
        Returns-bind (write_int a 4 src small (omega (arith, wa.same_length))) λ b wb.
          Returns-bind (write_int b 8 dst small' (omega (arith, wa.same_length, wb.same_length)))
            λ c wc.
              Returns-mono
                (write_bytes-Written zeros c 12
                  (omega (arith, size, wa.same_length, wb.same_length, wc.same_length)))
                λ d wd. record {
                  same_length =
                      omega (arith, wa.same_length, wb.same_length, wc.same_length, wd.same_length);
                  msg_type =
                      read_int-same d c 0 (λ k lo hi. wd.others k (inl (omega arith)))
                      ∙ read_int-same c b 0 (λ k lo hi. wc.before k (omega arith))
                      ∙ read_int-same b a 0 (λ k lo hi. wb.before k (omega arith))
                      ∙ wa.there;
                  src_end_id =
                      read_int-same d c 4 (λ k lo hi. wd.others k (inl (omega arith)))
                      ∙ read_int-same c b 4 (λ k lo hi. wc.before k (omega arith))
                      ∙ wb.there;
                  dest =
                      read_int-same d c 8 (λ k lo hi. wd.others k (inl (omega arith))) ∙ wc.there;
                  no_data = subst (λ n. bytes_at d 12 n ≡ zeros) size wd.there;
                  rest = λ k le.
                      wd.others k (inr (omega (arith, size)))
                      ∙ wc.after k (omega arith)
                      ∙ wb.after k (omega arith)
                      ∙ wa.after k (omega arith);
                })
