-- ===== src/Allowlist/Laws.antt =====
-- src/isz_allowlist.c: whom the check admits.
use mathlib.Core.List.{Mem}
use ishizue.Base.{ℕ, ◌≡◌, Option, some, List, [], ◌∷◌, ◌++◌, ◌==◌, length, take, ◌⊎◌, if◌then◌else◌}
use ishizue.Allowlist.{Binary, Allowlist, ReadResult, interrupted, failed, chunk}
use ishizue.Allowlist.Cgroups.{lines}

-- A path is a stored one, or goes on behind it with a slash.
abbrev pub IsBelow : List ℕ → List ℕ → Type 0
IsBelow path p = (p ≡ path) ⊎ ((rest : List ℕ) × (p ≡ path ++ 47 ∷ rest))

-- A line of a cgroup file, with a path at or below a stored one behind its second colon.
abbrev pub Names : List ℕ → List ℕ → Type 0
Names path l =
    (a : List ℕ) × (b : List ℕ) × (p : List ℕ) × (l ≡ a ++ 58 ∷ (b ++ 58 ∷ p)) × IsBelow path p

-- One of the lines names one of the paths.
abbrev pub NamesSome : List (List ℕ) → List (List ℕ) → Type 0
NamesSome cs ls = (c : List ℕ) × (l : List ℕ) × Mem c cs × Mem l ls × Names c l

-- A stored file is the one that was statted.
abbrev pub SameFile : List Binary → Binary → Type 0
SameFile bs st = (b : Binary) × Mem b bs × (b.st_dev ≡ st.st_dev) × (b.st_ino ≡ st.st_ino)

-- Where the answer comes from, by what was read of the cgroup file.
abbrev pub Admits : Allowlist → Option Binary → Option (List ℕ) → Type 0
Admits a exe cgroup =
    ((st : Binary) × (exe ≡ some st) × SameFile a.binaries st)
    ⊎ ((text : List ℕ) × (cgroup ≡ some text) × NamesSome a.cgroups (lines text))

-- What the file delivers until it ends, or a `read` fails.
unfoldable pub delivered : List ReadResult → List ℕ
delivered [] = []
delivered (interrupted ∷ rs) = delivered rs
delivered (failed ∷ rs) = []
delivered (chunk bs ∷ rs) = let rest = delivered rs in if length bs == 0 then [] else bs ++ rest

-- The bytes that follow in the buffer of `read_peer_cgroup` are the first ones of the file.
abbrev Follows : ℕ → List ℕ → List ℕ → Option (List ℕ) → Type 0
Follows room got bytes o = (text : List ℕ) → o ≡ some text → text ≡ got ++ take room bytes

-- The cgroup file as it was read: its first 4095 bytes.
abbrev pub AdmitsRead : Allowlist → Option Binary → List ReadResult → Type 0
AdmitsRead a exe rs =
    ((st : Binary) × (exe ≡ some st) × SameFile a.binaries st)
    ⊎ NamesSome a.cgroups (lines (take 4095 (delivered rs)))
