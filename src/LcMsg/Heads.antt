-- ===== src/LcMsg/Heads.antt =====
-- The type and the two ends at the start of a message.
use practice_project.Prelude.{
  ℕ, ◌^◌, ◌≤◌, ◌<◌, ◌≡◌, ◌∙◌, List, Option, ◌>>=◌, arith, length, Returns, Returns-bind,
  Returns-mono, inl,
}
use practice_project.Memory.{write_bytes, Written}
use practice_project.LcMsg.{int_bytes}
use practice_project.LcMsg.Fields.{read_int, write_int, read_int-same}

-- `b.msg.msgType = ...; b.msg.srcEndID = ...; b.msg.destEndID = ...`.
pub set_head : (msg_type src dest : ℕ) → List ℕ → Option (List ℕ)
set_head msg_type src dest m = do
  a ← write_bytes m 0 (int_bytes msg_type)
  b ← write_bytes a 4 (int_bytes src)
  write_bytes b 8 (int_bytes dest)

-- A message's type and ends.
pub record HasHead (msg_type src dest : ℕ) (m : List ℕ) : Type 0 where
  pub type_at : read_int m 0 ≡ msg_type
  pub src_at : read_int m 4 ≡ src
  pub dest_at : read_int m 8 ≡ dest

pub set_head-HasHead :
    (t src dest : ℕ) (m : List ℕ)
    → t < 2 ^ 32
    → src < 2 ^ 32
    → dest < 2 ^ 32
    → 12 ≤ length m
    → Returns (λ b. HasHead t src dest b × (length b ≡ length m)) (set_head t src dest m)
unfolding set_head
set_head-HasHead t src dest m ht hs hd room =
    Returns-bind (write_int m 0 t ht (omega arith)) λ a wa.
      Returns-bind (write_int a 4 src hs (omega (arith, wa.same_length))) λ b wb.
        Returns-mono (write_int b 8 dest hd (omega (arith, wa.same_length, wb.same_length))) λ c wc.
          (
            record {
              type_at =
                  read_int-same c b 0 (λ k lo hi. wc.before k (omega arith))
                  ∙ read_int-same b a 0 (λ k lo hi. wb.before k (omega arith))
                  ∙ wa.there;
              src_at = read_int-same c b 4 (λ k lo hi. wc.before k (omega arith)) ∙ wb.there;
              dest_at = wc.there;
            },
            wc.same_length ∙ wb.same_length ∙ wa.same_length,
          )

-- A copy of data behind the ends keeps them.
pub memcpy-HasHead :
    (t src dest : ℕ) (m b x : List ℕ)
    → HasHead t src dest m
    → Written m 12 x b
    → HasHead t src dest b
memcpy-HasHead t src dest m b x head w = record {
  type_at = read_int-same b m 0 (λ k lo hi. w.others k (inl (omega arith))) ∙ head.type_at;
  src_at = read_int-same b m 4 (λ k lo hi. w.others k (inl (omega arith))) ∙ head.src_at;
  dest_at = read_int-same b m 8 (λ k lo hi. w.others k (inl (omega arith))) ∙ head.dest_at;
}
