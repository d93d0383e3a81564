-- ===== src/Render/Surfaces/Run.antt =====
-- src/render/isz_surface.c: any sequence of calls on the surfaces of a server.
use ishizue.Base.{refl, ◌≡◌, none, some, ℕ, Bool, Option, List, [], ◌∷◌}
use ishizue.Base.Int.{ℤ, pos}
use ishizue.Render.Buffers.{Desc}
use ishizue.Render.Surfaces.{Rect, World, Surface, find}
use ishizue.Render.Surfaces.Operations.{
  create, create_subsurface, create_popup, create_layer, destroy, attach, detach, set_output,
  clear_output, set_idle_inhibit,
}
use ishizue.Render.Surfaces.Setters.{Change, change, damage_surface}

pub data Op : Type 0 where
  creates : Op
  creates_subsurface : ℕ → Op
  creates_popup : ℕ → ℤ → ℤ → Op
  creates_layer : ℕ → ℕ → Op
  destroys : ℕ → Op
  attaches : ℕ → Bool → Option ℕ → Option Desc → Op
  detaches : ℕ → Op
  sets_output : ℕ → ℕ → Op
  clears_output : ℕ → Op
  sets_idle_inhibit : ℕ → Bool → Op
  changes : ℕ → Change → Op
  damages : ℕ → Bool → List Rect → Op

abbrev pub step : World → Op → World
step w creates = create w
step w (creates_subsurface parent) = create_subsurface w parent
step w (creates_popup parent px py) = create_popup w parent px py
step w (creates_layer out which) = create_layer w out which
step w (destroys serial) = destroy w serial
step w (attaches serial alloc_ok fd d) = (attach w serial alloc_ok fd d).1
step w (detaches serial) = (detach w serial).1
step w (sets_output serial out) = (set_output w serial out).1
step w (clears_output serial) = (clear_output w serial).1
step w (sets_idle_inhibit serial inhibit) = (set_idle_inhibit w serial inhibit).1
step w (changes serial c) = (change w serial c).1
step w (damages serial realloc_ok rects) = (damage_surface w serial realloc_ok rects).1

unfoldable pub run : World → List Op → World
run w [] = w
run w (op ∷ ops) = run (step w op) ops

-- What every call keeps, every sequence of calls keeps.
pub run_keeps {ℓ} :
    (P : World → Type ℓ)
    → ((w : World) (op : Op) → P w → P (step w op))
    → (ops : List Op) (w : World) → P w
    → P (run w ops)
unfolding run
run_keeps P h [] w p = p
run_keeps P h (op ∷ ops) w p = run_keeps P h ops (step w op) (h w op p)

-- A call on a pointer, from what it does on a surface.
pub on_found :
    (P : Option Surface → Type 0) (serial : ℕ) (ss : List Surface)
    → P none
    → ((s : Surface) → find serial ss ≡ some s → P (some s))
    → P (find serial ss)
on_found P serial ss n f = by_result (find serial ss) refl
  where
    by_result : (o : Option Surface) → find serial ss ≡ o → P o
    by_result none e = n
    by_result (some s) e = f s e

-- A server without surfaces.
abbrev pub empty_world : World
empty_world = record {
  surfaces = [];
  next_serial = 0;
  heap = record { cells = []; closed = [] };
  resv = [];
  inhibit_count = λ o. pos 0;
  events = [];
}
