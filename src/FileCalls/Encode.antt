-- ===== src/FileCalls/Encode.antt =====
-- The requests of user/fsipc.c as the handlers of fs/serv.c read them.
use jos_buaa_a20_porting.Prelude.{
  ℕ, zero, suc, ◌+◌, ◌/◌, ◌%◌, ◌^◌, ◌≤◌, ◌<◌, ◌≡◌, ◌≢◌, refl, ◌∙◌, false, arith, ◌==◌, leb, List,
  [], ◌∷◌, length, Cmd, pure, and_then,
}
use jos_buaa_a20_porting.Mmu.{word}
use jos_buaa_a20_porting.Queue.{update}
use jos_buaa_a20_porting.Mm.{Ret}
use jos_buaa_a20_porting.Server.{req_word, req_string, req_path, maxpathlen}
use jos_buaa_a20_porting.UserMem.{User}
use jos_buaa_a20_porting.FileCalls.{put_word, put_string, fsipc_open, fsipc_set_size, fsipc_dirty}

-- the characters of a C string
abbrev pub AreChars : List ℕ → Type 0
AreChars [] = Unit
AreChars (c ∷ path) = (c ≢ 0) × AreChars path

req_word-put_word : (i v : ℕ) (buf : ℕ → ℕ) → v < word → req_word (put_word i v buf) i ≡ v
req_word-put_word i v buf lt =
    let b0 : put_word i v buf i ≡ v % 256 = ground arith in
    let b1 : put_word i v buf (i + 1) ≡ v / 2 ^ 8 % 256 = ground arith in
    let b2 : put_word i v buf (i + 2) ≡ v / 2 ^ 16 % 256 = ground arith in
    let b3 : put_word i v buf (i + 3) ≡ v / 2 ^ 24 % 256 = ground arith in
    rw b0 (rw b1 (rw b2 (rw b3 (omega arith))))

put_word_other : (i v : ℕ) (buf : ℕ → ℕ) (j : ℕ) → j < i → put_word i v buf j ≡ buf j
put_word_other i v buf j lt = ground arith

put_string_before :
    (i : ℕ) (path : List ℕ) (buf : ℕ → ℕ) (j : ℕ) → j < i → put_string i path buf j ≡ buf j
unfolding put_string
put_string_before i [] buf j lt = ground arith
put_string_before i (c ∷ path) buf j lt =
    put_string_before (i + 1) path (update buf i c) j (omega arith) ∙ ground arith

req_string-agree :
    (n i : ℕ) (p q : ℕ → ℕ)
    → ((j : ℕ) → j < i + n → p j ≡ q j)
    → req_string p n i ≡ req_string q n i
unfolding req_string
req_string-agree zero i p q h = refl
req_string-agree (suc n) i p q h =
    let here : p i ≡ q i = h i (omega arith) in
    let rest : req_string p n (i + 1) ≡ req_string q n (i + 1) =
      req_string-agree n (i + 1) p q (λ j lt. h j (omega arith)) in
    rw here (rw rest refl)

req_string-put_string :
    (path : List ℕ) (n i : ℕ) (buf : ℕ → ℕ)
    → length path ≤ n
    → AreChars path
    → req_string (put_string i path buf) n i ≡ path
unfolding req_string put_string
req_string-put_string [] zero i buf le chars = refl
req_string-put_string [] (suc n) i buf le chars = ground arith
req_string-put_string (c ∷ path) zero i buf le chars = absurd (omega arith)
req_string-put_string (c ∷ path) (suc n) i buf le (nz, chars) =
    let here : put_string (i + 1) path (update buf i c) i ≡ c =
      put_string_before (i + 1) path (update buf i c) i (omega arith) ∙ ground arith in
    let rest : req_string (put_string (i + 1) path (update buf i c)) n (i + 1) ≡ path =
      req_string-put_string path n (i + 1) (update buf i c) (omega arith) chars in
    let more : (c == 0) ≡ false = ground (arith, nz) in rw here (rw more (rw rest refl))

path_and_word :
    (path : List ℕ) (omode : ℕ) (buf : ℕ → ℕ)
    → length path < maxpathlen
    → AreChars path
    → req_path (put_word maxpathlen omode (put_string 0 path buf)) ≡ path
path_and_word path omode buf short chars =
    req_string-agree 1023 0 (put_word maxpathlen omode (put_string 0 path buf))
      (put_string 0 path buf)
      (λ j lt. put_word_other maxpathlen omode (put_string 0 path buf) j (omega arith))
    ∙ req_string-put_string path 1023 0 buf (omega arith) chars

two_words : (a b : ℕ) (buf : ℕ → ℕ) → a < word → req_word (put_word 4 b (put_word 0 a buf)) 0 ≡ a
two_words a b buf lt =
    let same = λ (j : ℕ) (h : j < 4). put_word_other 4 b (put_word 0 a buf) j h in
    rw (same 0 (omega arith)) (
      rw (same 1 (omega arith))
        (rw (same 2 (omega arith)) (rw (same 3 (omega arith)) (req_word-put_word 0 a buf lt))))

module _ (server : (req : ℕ) → (page : ℕ → ℕ) → (dstva : ℕ) → Cmd User (Ret ℕ × ℕ)) (s : User) where
  -- An opening of a path of fewer than 1024 characters asks the server with a page in which
  -- `serve_open` reads the same path and the same mode.
  pub fsipc_open-request :
      (path : List ℕ) (omode fd : ℕ)
      → length path < maxpathlen
      → AreChars path
      → omode < word
      → (page : ℕ → ℕ) × (fsipc_open server path omode fd s
          ≡ and_then (server 1 page fd (record s { fsipcbuf = page })) (λ r. pure r.0))
        × (req_path page ≡ path)
        × (req_word page maxpathlen ≡ omode)
  unfolding fsipc_open
  fsipc_open-request path omode fd short chars small =
      let fits : leb maxpathlen (length path) ≡ false = ground (arith, short) in
      (
        put_word maxpathlen omode (put_string 0 path s.fsipcbuf),
        rw fits refl,
        path_and_word path omode s.fsipcbuf short chars,
        req_word-put_word maxpathlen omode (put_string 0 path s.fsipcbuf) small,
      )

  -- `fsipc_set_size` and `fsipc_dirty` ask the server with a page in which the handlers read the
  -- same identifier and the same number.
  pub fsipc-request :
      (fileid v : ℕ)
      → fileid < word
      → v < word
      → (page : ℕ → ℕ) × (fsipc_set_size server fileid v s
          ≡ and_then (server 3 page 0 (record s { fsipcbuf = page })) (λ r. pure r.0))
        × (fsipc_dirty server fileid v s
            ≡ and_then (server 5 page 0 (record s { fsipcbuf = page })) (λ r. pure r.0))
        × (req_word page 0 ≡ fileid)
        × (req_word page 4 ≡ v)
  unfolding fsipc_set_size fsipc_dirty
  fsipc-request fileid v small small_v = (
    put_word 4 v (put_word 0 fileid s.fsipcbuf),
    refl,
    refl,
    two_words fileid v s.fsipcbuf small,
    req_word-put_word 4 v (put_word 0 fileid s.fsipcbuf) small_v,
  )
