-- ===== src/Capture/Tests.antt =====
-- src/render/isz_capture.c: a capture of output 3 by connection 8, with consent.
use mathlib.Core.List.{Nodup-cons, not-mem-nil}
use mathlib.Core.List.Pairwise
use ishizue.Base.{ℕ, refl, true, some, List, [], ◌∷◌, arith}
use ishizue.Conn.{create}
use ishizue.Render.Buffers.{Desc}
use ishizue.Dispatch.{Host}
use ishizue.Capture.{Capture, Captures, capture_start, capture_stop}
use ishizue.Capture.Laws.{IsValid, Starts, Stops, capture_start-Starts, capture_stop-Stops}
use ishizue.Capture.Requests.{Accounts, handle_capture_start, handle_capture_start-Accounts}

abbrev desc : Desc
desc = record {
  width = 640;
  height = 480;
  stride = 2560;
  offset = 0;
  format = 875713112;
  modifier = 0;
  alpha_mode = 0;
}

abbrev running : List Capture
running = record { out = 3; dmabuf_fd = 12; desc = desc; active = true; owning_conn = 8 } ∷ []

running-IsValid : IsValid running
running-IsValid = record {
  distinct = Nodup-cons.1 (not-mem-nil, Pairwise.nil);
  all_active = (refl, tt);
  room = omega arith;
}

abbrev state : Captures
state = record {
  table = running;
  grants = record { srv = 1; output = 4; kind = 0; expires_ns = 900; used = true } ∷ [];
}

abbrev host : Host
host = record {
  surface_ok = true;
  table_ok = true;
  buffer_ok = true;
  rects_ok = true;
  damage_ok = true;
  outputs = 4 ∷ [];
}

capture_start-Starts_example : Starts state 1 4 13 desc 500 (capture_start state 1 4 13 desc 500)
capture_start-Starts_example = capture_start-Starts state 1 4 13 desc 500 running-IsValid

capture_stop-Stops_example : Stops running 3 (capture_stop running 3)
capture_stop-Stops_example = capture_stop-Stops running 3 running-IsValid

abbrev request : List ℕ
request =
    0 ∷ 0 ∷ 0 ∷ 0 ∷ 0 ∷ 0 ∷ 0 ∷ 0 ∷ 128 ∷ 2 ∷ 0 ∷ 0 ∷ 224 ∷ 1 ∷ 0 ∷ 0 ∷ 0 ∷ 10 ∷ 0 ∷ 0 ∷ 0 ∷ 0 ∷ 0
    ∷ 0 ∷ 88 ∷ 82 ∷ 50 ∷ 52 ∷ 0 ∷ 0 ∷ 0 ∷ 0 ∷ 0 ∷ 0 ∷ 0 ∷ 0 ∷ 0 ∷ []

handle_capture_start-Accounts_example :
    Accounts state request
      (some 13 ∷ [])
      (handle_capture_start host (create 5) state 8 1 request (some 13 ∷ []) 500)
handle_capture_start-Accounts_example =
    handle_capture_start-Accounts host (create 5) state 8 1 request (some 13 ∷ []) 500
      running-IsValid
