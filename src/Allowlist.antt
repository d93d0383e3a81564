-- ===== src/Allowlist.antt =====
-- src/isz_allowlist.c: which processes may connect. What `stat`, `open` and `read` say of the files in
-- /proc is a parameter; text is a list of bytes, and a C string ends at its first 0 or with the list.
mod Lines
mod Cgroups
mod Laws
mod Tests
use ishizue.Base.{
  ℕ, zero, suc, ◌+◌, ◌-◌, Bool, true, false, ◌&&◌, ◌||◌, Option, none, some, List, [], ◌∷◌, ◌++◌,
  ltb, leb, ◌==◌, if◌then◌else◌, length, take, drop, set,
}
use ishizue.Base.Bytes.{byte_at}
use ishizue.Status.{Status, status_ok, invalid_arg, no_memory}

-- `struct isz_allowlist_binary`.
pub record Binary : Type 0 where
  pub st_dev : ℕ
  pub st_ino : ℕ

-- The two lists of the server, each path of a cgroup without its NUL.
pub record Allowlist : Type 0 where
  pub binaries : List Binary
  pub cgroups : List (List ℕ)

-- `isz_allowlist_add_binary`, from the results of `stat` and `malloc`.
add_statted : Allowlist → Bool → Option Binary → Status × Allowlist
add_statted a malloc_ok none = (invalid_arg, a)
add_statted a malloc_ok (some b) =
    if malloc_ok then (status_ok, record a { binaries = a.binaries ++ b ∷ [] }) else (no_memory, a)

pub add_binary : Allowlist → Bool → Option Binary → Status × Allowlist
unfolding add_statted
add_binary a malloc_ok st = add_statted a malloc_ok st

-- `isz_allowlist_add_cgroup`, from the results of `strdup` and `malloc`.
pub add_cgroup : Allowlist → Bool → Bool → List ℕ → Status × Allowlist
add_cgroup a strdup_ok malloc_ok path =
    if strdup_ok && malloc_ok
    then (status_ok, record a { cgroups = a.cgroups ++ path ∷ [] })
    else (no_memory, a)

-- `peer_pid_matches_binary`, from the result of `stat`.
pub same_file : Binary → List Binary → Bool
same_file st [] = false
same_file st (b ∷ bs) =
    let rest = same_file st bs in
    if b.st_dev == st.st_dev && b.st_ino == st.st_ino then true else rest

pub matches_binary : List Binary → Option Binary → Bool
unfolding same_file
matches_binary bs none = false
matches_binary bs (some st) = same_file st bs

-- The results of `read`: a chunk without bytes is the end of the file.
pub data ReadResult : Type 0 where
  interrupted failed : ReadResult
  chunk : List ℕ → ReadResult

-- The loop of `read_peer_cgroup`, with `room` bytes left in the buffer.
read_rest : List ReadResult → ℕ → List ℕ → Option (List ℕ)
read_rest [] room got = some got
read_rest (interrupted ∷ rs) room got = read_rest rs room got
read_rest (failed ∷ rs) room got = if room == 0 then some got else none
read_rest (chunk bs ∷ rs) room got =
    let rest = read_rest rs (room - length bs) (got ++ take room bs) in
    if room == 0 then some got else if length bs == 0 then some got else rest

-- `read_peer_cgroup`, for a buffer of 4096 bytes.
pub read_peer_cgroup : Bool → List ReadResult → Option (List ℕ)
unfolding read_rest
read_peer_cgroup opened rs = if opened then read_rest rs 4095 [] else none

-- `strchr`, as an offset, and `strlen`.
pub strchr : ℕ → List ℕ → Option ℕ
strchr c [] = none
strchr c (x ∷ xs) =
    let rest : Option ℕ = elim (strchr c xs) [ none ↦ none | some i ↦ some (suc i) ] in
    if x == c then some 0 else if x == 0 then none else rest

pub strlen : List ℕ → ℕ
strlen [] = 0
strlen (x ∷ xs) = let rest = strlen xs in if x == 0 then 0 else suc rest

-- `cgroup_line_path`: the text from the path on, its newline replaced; the line itself has none left
-- when it is called.
pub second_path : Option ℕ → List ℕ → Option (List ℕ)
second_path none rest = none
second_path (some j) rest = some (drop (suc j) rest)

pub first_path : Option ℕ → List ℕ → Option (List ℕ)
unfolding second_path
first_path none line = none
first_path (some i) line = second_path (strchr 58 (drop (suc i) line)) (drop (suc i) line)

pub strip : Option ℕ → List ℕ → List ℕ
strip none p = p
strip (some nl) p = set p nl 0

pub strip_path : Option (List ℕ) → Option (List ℕ)
unfolding strip
strip_path none = none
strip_path (some p) = some (strip (strchr 10 p) p)

pub cgroup_line_path : List ℕ → Option (List ℕ)
unfolding first_path strip_path strchr
cgroup_line_path line = strip_path (first_path (strchr 58 line) line)

-- `strncmp` to 0 over the whole of a path.
pub same_prefix : List ℕ → List ℕ → Bool
same_prefix [] p = true
same_prefix (x ∷ xs) [] = false
same_prefix (x ∷ xs) (y ∷ ys) = let rest = same_prefix xs ys in if x == y then rest else false

-- A line is tested for a stored path: it is equal to it, or goes on with a slash.
pub is_below : List ℕ → List ℕ → Bool
unfolding same_prefix strlen
is_below path p =
    leb (length path) (strlen p)
    && (same_prefix path p && (strlen p == length path || byte_at p (length path) == 47))

pub test_path : List ℕ → Option (List ℕ) → Bool
unfolding is_below
test_path path none = false
test_path path (some p) = is_below path p

-- A line that ends at offset `i` is tested; the answer over the lines behind it counts if it fails.
pub walk_line : List ℕ → List ℕ → ℕ → Bool × List ℕ → Bool × List ℕ
unfolding test_path cgroup_line_path
walk_line path line i (hit, rest) =
    if test_path path (cgroup_line_path line)
    then (true, line)
    else (hit, take (suc i) line ++ rest)

-- The body of the `while` loop: the newline at the end of the line becomes 0, and the loop goes on
-- behind it.
pub walk_on : List ℕ → List ℕ → (List ℕ → Bool × List ℕ) → Option ℕ → Bool × List ℕ
unfolding walk_line
walk_on path buf again none = (test_path path (cgroup_line_path buf), buf)
walk_on path buf again (some i) =
    let line = set buf i 0 in walk_line path line i (again (drop (suc i) line))

-- The `while` loop for one stored path: the answer, and the buffer from the line on, in which the
-- newlines that were passed are 0.
pub walk : ℕ → List ℕ → List ℕ → Bool × List ℕ
unfolding walk_on
walk zero path buf = (false, buf)
walk (suc fuel) path buf =
    let result = walk_on path buf (walk fuel path) (strchr 10 buf) in
    if byte_at buf 0 == 0 then (false, buf) else result

-- The loop of `peer_pid_matches_cgroup` over the stored paths, in one buffer.
pub matches_lines : List (List ℕ) → List ℕ → Bool
unfolding walk
matches_lines [] buf = false
matches_lines (c ∷ cs) buf =
    let (hit, left) = walk (suc (length buf)) c buf in
    let rest = matches_lines cs left in if hit then true else rest

pub matches_cgroup : List (List ℕ) → Option (List ℕ) → Bool
unfolding matches_lines
matches_cgroup cs none = false
matches_cgroup cs (some buf) = matches_lines cs buf

-- `isz_allowlist_check`, for a positive process id, from what `stat` says of the executable, and
-- whether the cgroup file opens and what it reads; over empty lists it is false whatever they say.
pub check_read : Allowlist → Option Binary → Option (List ℕ) → Bool
unfolding matches_binary matches_cgroup
check_read a exe cgroup =
    if matches_binary a.binaries exe then true else matches_cgroup a.cgroups cgroup

pub allowlist_check : Allowlist → Option Binary → Bool → List ReadResult → Bool
unfolding check_read read_peer_cgroup
allowlist_check a exe opened rs = check_read a exe (read_peer_cgroup opened rs)
