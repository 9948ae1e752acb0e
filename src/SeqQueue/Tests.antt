-- ===== src/SeqQueue/Tests.antt =====
-- The circular queue with two places in use of three, going round its block.
use practice_project.Prelude.{ℕ, ◌≡◌, refl, List, [], ◌∷◌, none, some, arith}
use practice_project.Array.{get! }
use practice_project.Memory.{memcpy, read_bytes, write_bytes}
use practice_project.SeqQueue.{
  success, full, empty, SeqQueue, en_seq_queue, de_seq_queue, destroy_seq_queue,
}
use practice_project.SeqQueue.Refine.{Holds, en_seq_queue-overrun}
use practice_project.SeqQueue.Run.{Call, put, get, run, run_fifo, run_refines}

-- Items 5 6 and 7 8; the second one is at the start of the block.
abbrev wrapped : SeqQueue
wrapped = record {
  front = 2;
  rear = 1;
  data_size = 2;
  node_cnt = 3;
  queue_ptr = 7 ∷ 8 ∷ 0 ∷ 0 ∷ 5 ∷ 6 ∷ [];
}

abbrev one_item : SeqQueue
one_item = record {
  front = 2;
  rear = 0;
  data_size = 2;
  node_cnt = 3;
  queue_ptr = 0 ∷ 0 ∷ 0 ∷ 0 ∷ 5 ∷ 6 ∷ [];
}

abbrev two_items : List (List ℕ)
two_items = (5 ∷ 6 ∷ []) ∷ (7 ∷ 8 ∷ []) ∷ []

abbrev script : List Call
script =
    put (1 ∷ 2 ∷ 3 ∷ [])
    ∷ get (0 ∷ 0 ∷ 0 ∷ [])
    ∷ put (1 ∷ 2 ∷ [])
    ∷ get (9 ∷ 9 ∷ [])
    ∷ get (9 ∷ 9 ∷ [])
    ∷ get (9 ∷ 9 ∷ [])
    ∷ []

wrapped-Holds : Holds wrapped two_items
unfolding get!
wrapped-Holds = record {
  block = refl;
  front_in = omega arith;
  fits = omega arith;
  rear_at = refl;
  places = (refl, (refl, tt));
}

one_item-Holds : Holds one_item ((5 ∷ 6 ∷ []) ∷ [])
unfolding get!
one_item-Holds = record {
  block = refl;
  front_in = omega arith;
  fits = omega arith;
  rear_at = refl;
  places = (refl, tt);
}

en_seq_queue-wrapped : en_seq_queue wrapped (1 ∷ 2 ∷ []) ≡ some (full, wrapped)
unfolding en_seq_queue
en_seq_queue-wrapped = refl

run-script :
    run wrapped script
    ≡ some (
        (full, none)
        ∷ (success, some (5 ∷ 6 ∷ []))
        ∷ (success, none)
        ∷ (success, some (7 ∷ 8 ∷ []))
        ∷ (success, some (1 ∷ 2 ∷ []))
        ∷ (empty, none)
        ∷ [])
unfolding run en_seq_queue de_seq_queue memcpy read_bytes write_bytes get!
run-script = refl

en_seq_queue-overrun_example : en_seq_queue one_item (7 ∷ []) ≡ none
en_seq_queue-overrun_example =
    en_seq_queue-overrun one_item ((5 ∷ 6 ∷ []) ∷ []) (7 ∷ []) one_item-Holds (omega arith)
      (omega arith)

run_refines_example : run wrapped script ≡ some (run_fifo 3 2 two_items script)
run_refines_example =
    run_refines script wrapped two_items wrapped-Holds
      (omega arith, (omega arith, (omega arith, (omega arith, (omega arith, (omega arith, tt))))))

destroy_seq_queue-wrapped : destroy_seq_queue (some wrapped) ≡ some (success, none)
unfolding destroy_seq_queue
destroy_seq_queue-wrapped = refl
