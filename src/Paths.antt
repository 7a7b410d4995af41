-- ===== src/Paths.antt =====
-- fs/fs.c: directories and paths. A path is the list of its characters; the loop of `walk_path`
-- goes over the names between its slashes, which `names` lists.
pub mod Names
use jos_buaa_a20_porting.Prelude.{
  ℕ, zero, suc, ◌+◌, ◌-◌, ◌*◌, ◌/◌, Bool, true, false, ◌&&◌, Option, none, some, List, [], ◌∷◌, leb,
  ◌==◌, if◌then◌else◌, length, Cmd, pure, stop, gets, modify, ◌>>=◌, ◌>>◌,
}
use jos_buaa_a20_porting.Mm.{Error, Ret, good, bad, not_found, bad_path, file_exists}
use jos_buaa_a20_porting.Blocks.{File, Fs, place, by2blk}
use jos_buaa_a20_porting.Files.{set_node, file_get_block, file_truncate, file_flush, flush_dir}

abbrev pub maxnamelen : ℕ
maxnamelen = 128

-- `FILE2BLK`, and the bytes of a node
abbrev pub file2blk : ℕ
file2blk = 16

abbrev pub by2file : ℕ
by2file = 256

abbrev pub ftype_dir : ℕ
ftype_dir = 1

abbrev pub slash : ℕ
slash = 47

-- `&super->s_root`
abbrev pub root : ℕ
root = place 1 + 8

-- `strcmp` of two names as a test
abbrev pub is_same : List ℕ → List ℕ → Bool
is_same [] [] = true
is_same [] (b ∷ q) = false
is_same (a ∷ p) [] = false
is_same (a ∷ p) (b ∷ q) = a == b && is_same p q

-- the first of `n` nodes from address `f` on whose name is `name`
unfoldable pub find_name : (s : Fs) (n f : ℕ) (name : List ℕ) → Option ℕ
find_name s zero f name = none
find_name s (suc n) f name =
    let rest = find_name s n (f + by2file) name in
    if is_same (s.node f).f_name name then some f else rest

-- the loop of `dir_lookup` over `n` blocks from block `i` on
unfoldable pub lookup_loop : (dir : ℕ) (name : List ℕ) (n i : ℕ) → Cmd Fs (Ret ℕ)
unfolding file_get_block find_name
lookup_loop dir name zero i = pure (bad not_found)
lookup_loop dir name (suc n) i = do
  r ← file_get_block dir i
  elim r [
    | bad e ↦ pure (bad e)
    | good blk ↦ (do
      found ← gets (λ s. find_name s file2blk blk name)
      elim found [
        | none ↦ lookup_loop dir name n (i + 1)
        | some f ↦ (do modify (set_node f (λ o. record o { f_dir = some dir })); pure (good f))
      ])
  ]

-- `dir_lookup`
unfoldable pub dir_lookup : (dir : ℕ) → List ℕ → Cmd Fs (Ret ℕ)
unfolding lookup_loop
dir_lookup dir name = do
  nblock ← gets (λ s. (s.node dir).f_size / by2blk)
  lookup_loop dir name nblock 0

-- the loop of `dir_alloc_file`; a node is free if its name is empty
unfoldable pub alloc_loop : (dir n i : ℕ) → Cmd Fs (Ret ℕ)
unfolding file_get_block find_name
alloc_loop dir zero i = do
  modify (set_node dir (λ o. record o { f_size = o.f_size + by2blk }))
  file_get_block dir i
alloc_loop dir (suc n) i = do
  r ← file_get_block dir i
  elim r [
    | bad e ↦ pure (bad e)
    | good blk ↦ (do
      found ← gets (λ s. find_name s file2blk blk [])
      elim found [ none ↦ alloc_loop dir n (i + 1) | some f ↦ pure (good f) ])
  ]

-- `dir_alloc_file`
unfoldable pub dir_alloc_file : ℕ → Cmd Fs (Ret ℕ)
unfolding alloc_loop
dir_alloc_file dir = do nblock ← gets (λ s. (s.node dir).f_size / by2blk); alloc_loop dir nblock 0

abbrev pub push : List ℕ → List (List ℕ) → List (List ℕ)
push [] rest = rest
push (c ∷ name) rest = (c ∷ name) ∷ rest

-- the name at the front of a path, and those behind its slashes
abbrev pub split : List ℕ → List ℕ × List (List ℕ)
split [] = ([], [])
split (c ∷ s) =
    let (name, rest) = split s in if c == slash then ([], push name rest) else (c ∷ name, rest)

-- the names of a path, which `skip_slash` and the inner loop of `walk_path` cut out of it
abbrev pub names : List ℕ → List (List ℕ)
names path = push (split path).0 (split path).1

-- how `walk_path` ends: with the directory and the file; at the last name, which its directory
-- does not have; or with another error, where `*pdir` stays NULL
pub data Walked : Type 0 where
  found : (dir : Option ℕ) (file : ℕ) → Walked
  missing : (dir : ℕ) (name : List ℕ) → Walked
  failed : Error → Walked

-- a lookup that fails: at the last name with `-E_NOT_FOUND`, or otherwise
abbrev pub lost : (dir : ℕ) (name : List ℕ) (rest : List (List ℕ)) → Error → Walked
lost dir name [] not_found = missing dir name
lost dir name rest e = failed e

-- the loop of `walk_path`
unfoldable pub walk_names : (dir : Option ℕ) (file : ℕ) → List (List ℕ) → Cmd Fs Walked
unfolding dir_lookup
walk_names dir file [] = pure (found dir file)
walk_names dir file (name ∷ rest) =
    if leb maxnamelen (length name) then pure (failed bad_path) else do
      type ← gets (λ s. (s.node file).f_type)
      if type == ftype_dir
          then (do
            r ← dir_lookup file name
            elim r [
              | bad e ↦ pure (lost file name rest e)
              | good f ↦ walk_names (some file) f rest
            ])
          else pure (failed not_found)

-- `walk_path`
unfoldable pub walk_path : List ℕ → Cmd Fs Walked
unfolding walk_names
walk_path path = walk_names none root (names path)

abbrev pub file_of : Walked → Ret ℕ
file_of (found dir file) = good file
file_of (missing dir name) = bad not_found
file_of (failed e) = bad e

-- `file_open`
unfoldable pub file_open : List ℕ → Cmd Fs (Ret ℕ)
unfolding walk_path
file_open path = do w ← walk_path path; pure (file_of w)

-- `file_create`; where no node can be had it returns the error of the walk
unfoldable pub file_create : List ℕ → Cmd Fs (Ret ℕ)
unfolding walk_path dir_alloc_file
file_create path = do
  w ← walk_path path
  elim w [
    | found dir file ↦ pure (bad file_exists)
    | failed e ↦ pure (bad e)
    | missing dir name ↦ (do
      r ← dir_alloc_file dir
      elim r [
        | bad _ ↦ pure (bad not_found)
        | good f ↦ (do modify (set_node f (λ o. record o { f_name = name })); pure (good f))
      ])
  ]

-- `file_remove`
unfoldable pub file_remove : List ℕ → Cmd Fs (Ret ℕ)
unfolding walk_path file_truncate file_flush flush_dir
file_remove path = do
  w ← walk_path path
  elim w [
    | missing dir name ↦ pure (bad not_found)
    | failed e ↦ pure (bad e)
    | found dir f ↦ (do
      file_truncate f 0
      modify (set_node f (λ o. record o { f_name = [] }))
      file_flush f
      flush_dir f
      pure (good 0))
  ]
