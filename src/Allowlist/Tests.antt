-- ===== src/Allowlist/Tests.antt =====
-- src/isz_allowlist.c at concrete inputs: a file of two lines and stored paths of one letter.
use ishizue.Base.{◌≡◌, refl, ◌||◌, ℕ, true, false, some, List, [], ◌∷◌, arith}
use ishizue.Allowlist.{Allowlist, ReadResult, interrupted, chunk, read_peer_cgroup, matches_cgroup}
use ishizue.Allowlist.Cgroups.{lines, below_any, first_below, matches_cgroup-lines}
use ishizue.Allowlist.Lines.{IsText}

-- `0::/a` and `1::/b/c`, each with its newline.
abbrev first_line : List ℕ
first_line = 48 ∷ 58 ∷ 58 ∷ 47 ∷ 97 ∷ []

abbrev text : List ℕ
text = 48 ∷ 58 ∷ 58 ∷ 47 ∷ 97 ∷ 10 ∷ 49 ∷ 58 ∷ 58 ∷ 47 ∷ 98 ∷ 47 ∷ 99 ∷ 10 ∷ []

abbrev slash_b : List ℕ
slash_b = 47 ∷ 98 ∷ []

abbrev slash_x : List ℕ
slash_x = 47 ∷ 120 ∷ []

abbrev stored : Allowlist
stored = record { binaries = []; cgroups = slash_b ∷ [] }

-- The file in two pieces.
read_whole :
    read_peer_cgroup true (chunk first_line ∷ interrupted ∷ chunk (10 ∷ []) ∷ [])
    ≡ some (48 ∷ 58 ∷ 58 ∷ 47 ∷ 97 ∷ 10 ∷ [])
unfolding read_peer_cgroup
read_whole = refl

-- The same path is found when it is the first that is stored, and is not when it is the second.
first_found : matches_cgroup (slash_b ∷ slash_x ∷ []) (some text) ≡ true
unfolding matches_cgroup
first_found = refl

second_missed : matches_cgroup (slash_x ∷ slash_b ∷ []) (some text) ≡ false
unfolding matches_cgroup
second_missed = refl

text_bytes : IsText text
text_bytes = (
  ground arith,
  (
    ground arith,
    (
      ground arith,
      (
        ground arith,
        (
          ground arith,
          (
            ground arith,
            (
              ground arith,
              (
                ground arith,
                (
                  ground arith,
                  (
                    ground arith,
                    (ground arith, (ground arith, (ground arith, (ground arith, tt)))),
                  ),
                ),
              ),
            ),
          ),
        ),
      ),
    ),
  ),
)

-- The file in one piece.
abbrev reads : List ReadResult
reads = chunk text ∷ []

matches_cgroup-lines_example :
    matches_cgroup (slash_x ∷ slash_b ∷ []) (some text)
    ≡ (below_any slash_x (lines text) || first_below (slash_b ∷ []) (lines text))
matches_cgroup-lines_example = matches_cgroup-lines slash_x (slash_b ∷ []) text text_bytes
