-- ===== src/H2/Runs.antt =====
-- Concrete runs of the adapter, and the theorems at concrete inputs.
use mathlib.Core.Path.{subst}
use esp_cf_tunnel.Prelude.{
  ℕ, zero, suc, ◌+◌, ◌==◌, All, sym, ◌≡◌, ◌≢◌, inl, inr, refl, true, false, Option, none, some,
  List, [], ◌∷◌, length, if◌then◌else◌, arith, bytes_of, Option-cases,
}
use esp_cf_tunnel.Core.{ok}
use esp_cf_tunnel.Headers.{encode, need_loop, write_loop}
use esp_cf_tunnel.H2.{Engine, Outside, responds, resumes, resets, find_stream, Stream, empty_slot}
use esp_cf_tunnel.H2.Respond.{respond, content_length}
use esp_cf_tunnel.H2.Frame.{Frame, headers_frame, count}
use esp_cf_tunnel.H2.Session.{
  Event, headers_begun, header_received, frame_received, data_received, data_wanted, stream_closed,
  submits, Library, gives, breaks, initial, create, receives, outputs, ticks, perform_all,
}
use esp_cf_tunnel.H2.Events.{AllFit}
use esp_cf_tunnel.H2.Calls.{IsSettled, IsDocumented, perform_all-IsSettled}
use esp_cf_tunnel.H2.Invariant.{SlotFits, total_bytes}
use esp_cf_tunnel.H2.Answered.{Elsewhere, Keeps}
use esp_cf_tunnel.H2.Responses.{respond_once}
use esp_cf_tunnel.H2.Heap.{
  Heap, allocates, frees, resizes, run, total, IsAccounted, run-IsAccounted,
}

-- An nghttp2 that accepts everything, and an application that answers every request with 200.
abbrev outside : Outside ℕ
outside = record {
  submit_rst = λ w id code. (false, w);
  consume = λ w id n. (false, w);
  consume_connection = λ w n. (false, w);
  submit_response = λ w id headers. (false, w);
  resume_data = λ w id. (false, w);
  submit_goaway = λ w. (false, w);
  on_request = λ h q. (none, responds q.stream 200 [] true ∷ [], h.outside);
  on_data = λ h id bytes end. (none, [], h.outside);
  on_read = λ h id n. (none, 0, true, resumes id ∷ [], h.outside);
  on_closed = λ h id code. (resets id 8 ∷ [], h.outside);
}

abbrev frame : Frame
frame = record {
  type = headers_frame;
  id = 1;
  is_request = true;
  ack = false;
  end_stream = true;
  error_code = 0;
  last_stream = 0;
  opaque = [];
}

-- Trailers of an open stream.
abbrev trailers : Frame
trailers = record frame { is_request = false }

-- The request of stream 1 arrives; if it is open, its trailers do.
abbrev events_from : Option Stream → List Event
events_from (some s) =
    headers_begun trailers
    ∷ header_received 1 (bytes_of "a") (bytes_of "b")
    ∷ frame_received trailers
    ∷ []
events_from none =
    headers_begun frame
    ∷ header_received 1 (bytes_of ":path") (bytes_of "/")
    ∷ frame_received frame
    ∷ []

abbrev events : Engine ℕ → List Event
events h = events_from (find_stream h.streams 1)

abbrev library : Library ℕ
library = record {
  on_input = λ h input. events h;
  input_result = λ h input fine. (if fine then gives (length input) else breaks 902, h.outside);
  on_output = λ h. [];
  output_result = λ h fine. (if fine then gives [] else breaks 902, h.outside);
}

events_fit : (h : Engine ℕ) → AllFit outside (events h) h
events_fit h = elim (Option-cases (find_stream h.streams 1)) [
  | inr (s, t) ↦
      subst (λ x. AllFit outside (events_from x) h) (sym t)
        (
          ((λ z. ground (arith, z)), (λ e. absurd (ground (arith, e)))),
          (tt, ((λ e z. ground (arith, z)), tt)),
        )
  | inl t ↦
      subst (λ x. AllFit outside (events_from x) h) (sym t)
        (((λ z. ground (arith, z)), (λ e. t)), (tt, ((λ e z. ground (arith, z)), tt)))
]

documented : IsDocumented outside library
documented = record {
  input_fits = λ h input. events_fit h;
  output_fits = λ h. tt;
  input_stops = λ h input. refl;
  output_stops = λ h. refl;
}

perform_all-IsSettled_example : IsSettled (
    perform_all outside library
      (receives (1 ∷ 2 ∷ []) 5 ∷ receives (3 ∷ []) 6 ∷ outputs ∷ ticks 20000 ∷ [])
      (initial 2 0))
unfolding create
perform_all-IsSettled_example =
    perform_all-IsSettled outside library documented 2 65536 true true 0 (initial 2 0)
      (receives (1 ∷ 2 ∷ []) 5 ∷ receives (3 ∷ []) 6 ∷ outputs ∷ ticks 20000 ∷ []) made
  where
    made : create {W = ℕ} 2 65536 true true 0 ≡ ok (initial 2 0)
    made = refl

-- Stream 1 waits for its answer; `outside` is the number of the answers that nghttp2 took for it.
abbrev waiting : Engine ℕ
waiting = record (initial {W = ℕ} 2 0) {
  streams =
      record empty_slot { id = 1; headers_done = true }
      ∷ empty_slot
      ∷ empty_slot
      ∷ empty_slot
      ∷ empty_slot
      ∷ empty_slot
      ∷ [];
  stats = record (initial {W = ℕ} 2 0).stats { active_streams = 1 };
}

waiting-IsSettled : IsSettled waiting
unfolding count total_bytes
waiting-IsSettled = inl (record {
  size = refl;
  counted = refl;
  slots =
      let one : SlotFits 0 empty_slot = (λ z. refl, λ z d. d) in
      (
        ((λ z. ground (arith, z)), (λ z d. ground (arith, z))),
        (one, (one, (one, (one, (one, tt))))),
      );
  alone = λ i u. ground (arith, u);
  admitted = λ k. grind arith;
  few = omega arith;
  fits = omega arith;
  stored = refl;
})

-- An application that answers a stream whenever it hears of it.
abbrev eager : Outside ℕ
eager = record outside {
  submit_response = λ w id headers. (false, if id == 1 then w + 1 else w);
  on_data = λ h id bytes end. (none, responds id 200 [] true ∷ [], h.outside);
  on_read = λ h id n. (none, 0, true, responds id 200 [] true ∷ [], h.outside);
  on_closed = λ h id code. (responds id 200 [] true ∷ [], h.outside);
}

-- More data of stream 1 and of stream 3, and the end of stream 1; stream 1 begins if it is not answered.
abbrev later_events : ℕ → List Event
later_events zero = events_from none
later_events (suc n) =
    headers_begun (record frame { id = 3 })
    ∷ data_received 1 (1 ∷ [])
    ∷ data_received 3 (2 ∷ [])
    ∷ data_wanted 1 10
    ∷ stream_closed 1 0
    ∷ []

abbrev busy : Library ℕ
busy = record library {
  on_input = λ h input. later_events h.outside;
  on_output = λ h. data_wanted 1 10 ∷ [];
}

answers : (respond eager waiting 1 200 [] true).0 ≡ none
unfolding respond encode need_loop write_loop content_length find_stream
answers = refl

one_answer : (respond eager waiting 1 200 [] true).1.outside ≡ 1
unfolding respond encode need_loop write_loop content_length find_stream
one_answer = refl

later_events-Elsewhere : (w : ℕ) → w ≡ 1 → All (Elsewhere 1) (later_events w)
later_events-Elsewhere zero e = absurd (ground (arith, e))
later_events-Elsewhere (suc n) e = ((λ t z. ground (arith, z)), (tt, (tt, (tt, (tt, tt)))))

counts_one : Keeps eager busy 1 (λ w. w ≡ 1)
counts_one = record {
  by_rst = λ w at code p. p;
  by_consume = λ w at n p. p;
  by_connection = λ w n p. p;
  by_response = λ w at headers other p. ground (arith, other, p);
  by_resume = λ w at p. p;
  by_goaway = λ w p. p;
  by_request = λ h q p. p;
  by_data = λ h at bytes end p. p;
  by_read = λ h at n p. p;
  by_closed = λ h at code p. p;
  by_input = λ h input fine p. p;
  by_output = λ h fine p. p;
  input_elsewhere = λ h input p. later_events-Elsewhere h.outside p;
  output_elsewhere = λ h p. (tt, tt);
}

respond_once_example :
    let h' =
      perform_all eager busy
        (outputs ∷ receives (1 ∷ []) 5 ∷ submits (responds 1 200 [] true) ∷ ticks 20000 ∷ [])
        (respond eager waiting 1 200 [] true).1 in
    (h'.outside ≡ 1) × ((respond eager h' 1 404 [] false).0 ≢ none)
respond_once_example =
    respond_once eager busy (λ w. w ≡ 1) waiting 1 200 404 [] [] true false
      (outputs ∷ receives (1 ∷ []) 5 ∷ submits (responds 1 200 [] true) ∷ ticks 20000 ∷ [])
      counts_one waiting-IsSettled answers one_answer

abbrev empty_heap : Heap
empty_heap = record { current = 0; peak = 0; limit = 65536; blocks = [] }

empty_heap-IsAccounted : IsAccounted empty_heap
unfolding total
empty_heap-IsAccounted = record { counted = refl; within = omega arith; limited = omega arith }

run-IsAccounted_example : IsAccounted (
    run 16 empty_heap
      (allocates (some 64) 100 ∷ resizes (some 64) (some 512) 200 ∷ frees (some 512) ∷ []))
run-IsAccounted_example =
    run-IsAccounted 16
      (allocates (some 64) 100 ∷ resizes (some 64) (some 512) 200 ∷ frees (some 512) ∷ [])
      empty_heap empty_heap-IsAccounted
