-- ===== src/Consent/Tests.antt =====
-- src/isz_capture_consent.c at concrete inputs: a grant for server 1, output 2 and screen capture.
use ishizue.Base.{◌+◌, ◌≡◌, ◌≢◌, refl, true, false, List, [], ◌∷◌, arith, ltb}
use ishizue.Status.{status_ok, invalid_arg}
use ishizue.Consent.{Key, Entry, grant, check, find, timeout_ns, matches}
use ishizue.Consent.Laws.{check-grant}

abbrev capture_key : Key
capture_key = record { srv = 1; output = 2; kind = 0 }

abbrev other_key : Key
other_key = record { srv = 1; output = 3; kind = 0 }

abbrev table : List Entry
table =
    record { srv = 1; output = 3; kind = 0; expires_ns = 70; used = true }
    ∷ record { srv = 0; output = 0; kind = 0; expires_ns = 0; used = false }
    ∷ []

grant_refuses :
    ((grant table (record { srv = 0; output = 2; kind = 0 }) 5).0 ≡ invalid_arg)
    × ((grant table (record { srv = 1; output = 2; kind = 3 }) 5).0 ≡ invalid_arg)
unfolding grant
grant_refuses = (refl, refl)

-- Expired at its very time, and reclaimed then.
check_expires :
    (check table other_key 69 ≡ (true, table))
    × ((check table other_key 70).0 ≡ false)
    × (check table capture_key 0 ≡ (false, table))
unfolding check find matches
check_expires = (refl, refl, refl)

check-grant_example :
    ((grant table capture_key 5).0 ≡ status_ok)
    × ((check (grant table capture_key 5).1 capture_key 6).0 ≡ ltb 6 (5 + timeout_ns))
check-grant_example =
    check-grant table capture_key 5 6 (omega arith, omega arith, omega arith) (omega arith)
      (omega arith, (omega arith, tt)) (omega arith)

keys_differ : other_key ≢ capture_key
keys_differ e = ground arith

still_granted : (check (grant table capture_key 5).1 other_key 6).0 ≡ true
unfolding grant check find matches
still_granted = refl
