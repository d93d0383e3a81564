-- ===== src/Events/Listeners/Tests.antt =====
-- src/isz_listeners.c, src/util/isz_list.h: a bucket of two listeners.
use ishizue.Base.{
  ℕ, ◌+◌, ◌==◌, ◌≡◌, ◌⊎◌, refl, inl, inr, Bool, true, false, none, some, [], ◌∷◌, arith,
  if◌then◌else◌,
}
use ishizue.Base.Int.{pos}
use ishizue.Status.{status_ok, no_memory}
use ishizue.Events.IntrusiveList.{init_list, insert, push_back, remove, pop_front, is_empty}
use ishizue.Events.IntrusiveList.Ring.{IsRing}
use ishizue.Events.IntrusiveList.Refines.{remove-IsRing}
use ishizue.Events.Listeners.{
  Server, listener_bucket, add_listener, add_node, remove_listener, emit_event, call_from,
}
use ishizue.Events.Listeners.Rounds.{IsPolite, emit_event-Calls, Removes, Stores, listeners-Change}

abbrev quiet : Server
quiet = record {
  memory = init_list (λ x. record { prev = 0; next = 0 }) 101;
  heads = λ t. 100 + t;
  fns = λ x. 0;
  userdata = λ x. 0;
  destroying = false;
}

abbrev first : Server
first = (add_listener quiet (pos 1) 7 0 (some 1)).1

abbrev both : Server
both = (add_listener first (pos 1) 8 0 (some 2)).1

both-IsRing : IsRing both.memory 101 (1 ∷ 2 ∷ [])
unfolding add_listener add_node push_back insert init_list listener_bucket
both-IsRing = record {
  links = (refl, refl, (refl, refl, (refl, refl, tt)));
  distinct = ((omega arith, (omega arith, tt)), ((omega arith, tt), (tt, tt)));
}

-- The first listener removes itself.
abbrev once : Server → ℕ → Server
once srv n = record srv { memory = if n == 1 then remove srv.memory n else srv.memory }

once-IsPolite : IsPolite once
once-IsPolite srv n = polite (n == 1)
  where
    polite :
        (b : Bool)
        → ((if b then remove srv.memory n else srv.memory) ≡ srv.memory)
          ⊎ ((if b then remove srv.memory n else srv.memory) ≡ remove srv.memory n)
    polite true = inr refl
    polite false = inl refl

bucket_one : both.heads (listener_bucket 1) ≡ 101
unfolding add_listener add_node listener_bucket
bucket_one = refl

running : both.destroying ≡ false
unfolding add_listener add_node
running = refl

-- A listener that the first one adds behind the second is called in the same round.
abbrev adding : Server → ℕ → Server
adding srv n = if n == 1 then (add_listener srv (pos 1) 9 0 (some 3)).1 else srv

added_is_called : (emit_event 9 adding both 1).0 ≡ 1 ∷ 2 ∷ 3 ∷ []
unfolding emit_event call_from add_listener add_node push_back insert init_list listener_bucket
added_is_called = refl

popped : (pop_front both.memory 101).0 ≡ some 1
unfolding pop_front is_empty add_listener add_node push_back insert init_list listener_bucket
popped = refl

remove-IsRing_example : IsRing (remove both.memory 2) 101 (1 ∷ [])
remove-IsRing_example = remove-IsRing both.memory 101 (1 ∷ []) 2 [] both-IsRing

emit_event-Calls_example : (emit_event 9 once both 1).0 ≡ 1 ∷ 2 ∷ []
emit_event-Calls_example =
    emit_event-Calls once once-IsPolite 101 9 both 1 (1 ∷ 2 ∷ []) running bucket_one both-IsRing
      (omega arith)

known_ring : IsRing both.memory (both.heads (listener_bucket 1)) (1 ∷ 2 ∷ [])
unfolding add_listener add_node listener_bucket
known_ring = both-IsRing

listeners-Change_example :
    (add_listener both (pos 1) 7 0 none ≡ (no_memory, both))
    × ((add_listener both (pos 1) 7 0 (some 5)).0 ≡ status_ok)
    × IsRing
        (add_listener both (pos 1) 7 0 (some 5)).1.memory
        (both.heads (listener_bucket 1))
        (1 ∷ 2 ∷ 5 ∷ [])
    × Stores both 5 7 0 (add_listener both (pos 1) 7 0 (some 5)).1
    × ((remove_listener 9 both (pos 1) 7).0 ≡ status_ok)
    × Removes
        (both.heads (listener_bucket 1))
        both
        7
        []
        (1 ∷ 2 ∷ [])
        ((remove_listener 9 both (pos 1) 7).1, (remove_listener 9 both (pos 1) 7).2)
unfolding listener_bucket add_listener add_node
listeners-Change_example =
    listeners-Change 9 both 1 7 0 5 (1 ∷ 2 ∷ []) (omega arith) (omega arith) known_ring
      (omega arith, (omega arith, (omega arith, tt))) (omega arith)
