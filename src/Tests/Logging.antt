-- ===== src/Tests/Logging.antt =====
-- A line is refused by the lock, another is queued, and the handler writes it.
use async_ping.Prelude.{
  ℕ, ◌≡◌, ◌≢◌, refl, true, false, Option, none, some, List, [], ◌∷◌, map, arith,
}
use async_ping.CommonList.{
  Heap, load_next, load_prev, load_value, store_next, store_prev, new_node, delete_node,
}
use async_ping.CommonList.Dequeue.{Dequeue, new_dequeue, link_head, push_head, unlink, pop_tail}
use async_ping.CommonList.Dequeue.Interface.{dequeue}
use async_ping.Logger.{LogEventBody, new_logger, make_body, truncate, info, get_level_string}
use async_ping.Logger.Text.{Tm, dump_to_file, dump_all}
use async_ping.Logger.Text.Stamp.{IsTm}
use async_ping.Logger.Text.Lines.{lines, read_line, blank, char, IsPlain, read_line-dump_all}
use async_ping.Logger.Shared.{Shared, Run, here, next, pushes, writes, reads, IsWritten}
use async_ping.Logger.Concurrent.{idle, dequeue-IsWritten}

abbrev body : LogEventBody
body = record { content = 104 ∷ 105 ∷ []; src_file_name = 1; level = 30; line = 29; now = 1000 }

abbrev unused : Heap LogEventBody
unused = record { live = λ p. false; next = λ p. 0; prev = λ p. 0; value = λ p. body }

abbrev sentinels : Dequeue
sentinels = record { head = 1; tail = 2 }

abbrev heap_of : {B : Type 0} → Option (B × Heap LogEventBody) → Heap LogEventBody
heap_of none = unused
heap_of (some (b, h)) = h

abbrev made : Heap LogEventBody
made = heap_of (new_dequeue 1 2 body unused)

abbrev refused : Heap LogEventBody
refused = heap_of (push_head 16 3 body sentinels made)

abbrev full : Heap LogEventBody
full = heap_of (push_head 0 3 body sentinels refused)

abbrev emptied : Heap LogEventBody
emptied = heap_of (pop_tail 0 sentinels full)

made_run : new_dequeue 1 2 body unused ≡ some (sentinels, made)
unfolding new_dequeue new_node store_next store_prev
made_run = refl

abbrev written : Shared (dequeue sentinels)
written = record {
  log_queue = emptied;
  pipe = 0;
  pending = 1;
  file = body ∷ [];
  accepted = body ∷ [];
}

written-Run : Run (dequeue sentinels) (idle sentinels made) written
unfolding new_dequeue new_node delete_node store_next store_prev push_head link_head load_next
    load_prev load_value unlink pop_tail new_logger make_body truncate
written-Run =
    next
      (next
        (next
          (next here (
            pushes new_logger 1000 30 1 29 (104 ∷ 105 ∷ []) body false refused refl
              (16, 3, refl, refl)))
          (pushes new_logger 1000 30 1 29 (104 ∷ 105 ∷ []) body true full refl (0, 3, refl, refl)))
        (writes 1 refl))
      (reads 0 (some body) emptied refl (0, refl))

one_two : ◌≢◌ {A = ℕ} 1 2
one_two e = omega arith

dequeue-IsWritten_example : IsWritten (dequeue sentinels) written
dequeue-IsWritten_example =
    dequeue-IsWritten unused made 1 2 body sentinels written (λ e. one_two e) made_run written-Run

-- 2023-11-14 22:13:20.
abbrev localtime : ℕ → Tm
localtime now = record {
  tm_year = 123;
  tm_mon = 10;
  tm_mday = 14;
  tm_hour = 22;
  tm_min = 13;
  tm_sec = 20;
}

-- The name "L".
abbrev text_of : ℕ → List ℕ
text_of pointer = 76 ∷ []

-- [INFO] 2023-11-14 22:13:20 (L:29): hi
dump_run :
    dump_to_file localtime text_of [] body
    ≡ 91 ∷ 73 ∷ 78 ∷ 70 ∷ 79 ∷ 93 ∷ 32 ∷ 50 ∷ 48 ∷ 50 ∷ 51 ∷ 45 ∷ 49 ∷ 49 ∷ 45 ∷ 49 ∷ 52 ∷ 32 ∷ 50
      ∷ 50 ∷ 58 ∷ 49 ∷ 51 ∷ 58 ∷ 50 ∷ 48 ∷ 32 ∷ 40 ∷ 76 ∷ 58 ∷ 50 ∷ 57 ∷ 41 ∷ 58 ∷ 32 ∷ 104 ∷ 105
      ∷ 10 ∷ []
unfolding dump_to_file
dump_run = refl

localtime-IsTm : IsTm (localtime 1000)
localtime-IsTm = record {
  year = omega arith;
  mon = omega arith;
  mday = omega arith;
  hour = omega arith;
  min = omega arith;
  sec = omega arith;
}

body-IsPlain : IsPlain localtime text_of body
body-IsPlain = record {
  name = char refl blank;
  content = char refl (char refl blank);
  time = localtime-IsTm;
}

read_line-dump_all_example :
    map read_line (lines (dump_all localtime text_of [] (body ∷ body ∷ [])))
    ≡ some (info, some (localtime 1000)) ∷ some (info, some (localtime 1000)) ∷ []
unfolding get_level_string
read_line-dump_all_example =
    read_line-dump_all localtime text_of (body ∷ body ∷ []) (body-IsPlain, (body-IsPlain, tt))
