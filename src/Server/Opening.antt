-- ===== src/Server/Opening.antt =====
-- The handlers of fs/serv.c at an entry: the answer of `serve_open`, and what a request on an entry
-- that was never opened comes to.
use jos_buaa_a20_porting.Prelude.{
  true, leb, ltb, Run, ◌/◌, ℕ, ◌%◌, ◌^◌, ◌<◌, ◌≡◌, ◌≢◌, refl, ap, ◌∙◌, arith, false, none, some,
  ◌∷◌, Bool-cases, inl, inr, if◌then◌else◌, done, halt, bad_pointer,
}
use jos_buaa_a20_porting.Mm.{good, bad, inval}
use jos_buaa_a20_porting.Queue.{update}
use jos_buaa_a20_porting.Blocks.{Fs, by2blk}
use jos_buaa_a20_porting.Files.{nindirect}
use jos_buaa_a20_porting.Paths.{file_open}
use jos_buaa_a20_porting.Server.{
  Serv, maxopen, maxpathlen, shared_perm, is_invalid, req_word, req_path, open_alloc, fill_open,
  is_negative, serve_open, serve_map, serve_set_size, serve_close, serve_dirty, null_block,
}
use jos_buaa_a20_porting.Server.Entries.{refs_of}

-- An opening that finds an entry and the file answers with the page of the entry, which names the
-- file, its identifier and the mode asked for; no other entry changes.
pub serve_open-Answered :
    (s t : Serv) (whom : ℕ) (page : ℕ → ℕ) (k id f : ℕ) (u : Fs)
    → open_alloc s ≡ done (some k, good id) t
    → id < 2 ^ 31
    → id ≡ (t.opentab k).o_fileid
    → file_open (req_path page) t.fs ≡ done (good f) u
    → (v : Serv) × (serve_open whom page s ≡ done tt v)
      × (v.answers
          ≡ record { whom = whom; value = good 0; srcva = (t.opentab k).o_ff; perm = shared_perm }
            ∷ t.answers)
      × ((v.opentab k).o_file ≡ some f)
      × ((v.opentab k).o_fileid ≡ id)
      × ((v.filefd (t.opentab k).o_ff).f_fileid ≡ id)
      × ((v.filefd (t.opentab k).o_ff).f_fd.fd_omode ≡ req_word page maxpathlen)
      × ((v.filefd (t.opentab k).o_ff).f_file ≡ u.node f)
      × ((j : ℕ) → j ≢ k → v.opentab j ≡ t.opentab j)
unfolding serve_open fill_open
serve_open-Answered s t whom page k id f u alloc small same walk =
    let fits : is_negative (good id) ≡ false = ground arith in
    let v : Serv = record t {
      fs = u;
      opentab =
          update t.opentab k
            (record (t.opentab k) { o_file = some f; o_mode = req_word page maxpathlen });
      filefd = update t.filefd (t.opentab k).o_ff (record {
        f_fd = record (t.filefd (t.opentab k).o_ff).f_fd {
          fd_omode = req_word page maxpathlen;
          fd_dev_id = 102;
        };
        f_fileid = (t.opentab k).o_fileid;
        f_file = u.node f;
      });
      answers =
          record { whom = whom; value = good 0; srcva = (t.opentab k).o_ff; perm = shared_perm }
          ∷ t.answers;
    } in
    (
      v,
      rw alloc (rw fits (rw walk (ground arith))),
      refl,
      ground arith,
      ground (arith, same),
      ground (arith, same),
      ground arith,
      ground arith,
      λ j ne. ground arith,
    )

-- what a request for a block of the NULL file comes to
abbrev pub refused_or_null : Serv → (whom offset : ℕ) → Run Serv (Unit {0})
refused_or_null s whom offset =
    if ltb offset 0x400000
    then halt bad_pointer
    else done tt (record s {
      answers = record { whom = whom; value = bad inval; srcva = 0; perm = 0 } ∷ s.answers;
    })

null_block_lem :
    (s : Serv) (whom offset : ℕ)
    → null_block whom (offset / by2blk) s ≡ refused_or_null s whom offset
null_block_lem s whom offset = elim (Bool-cases (ltb offset 0x400000)) [
  | inl within ↦
      let few : leb nindirect (offset / by2blk) ≡ false = ground (arith, within) in
      rw few (rw within refl)
  | inr past ↦
      let many : leb nindirect (offset / by2blk) ≡ true = ground (arith, past) in
      rw many (rw past refl)
]

-- After the start the identifiers below `MAXOPEN` are taken for those of open files. A request that
-- names the index of an entry that was never opened, whose page does not exist, is accepted, and the
-- handler gets the NULL file: setting its size and closing it read through NULL, and so do mapping
-- and marking a block at an offset below 4 MB; from there on the request is refused before the read.
pub never_opened-halts :
    (s : Serv) (whom : ℕ) (page : ℕ → ℕ)
    → req_word page 0 < maxopen
    → (s.opentab (req_word page 0)).o_fileid ≡ req_word page 0
    → (s.opentab (req_word page 0)).o_file ≡ none
    → refs_of s (req_word page 0) ≡ 0
    → (serve_set_size whom page s ≡ halt bad_pointer)
      × (serve_close whom page s ≡ halt bad_pointer)
      × (serve_map whom page s ≡ refused_or_null s whom (req_word page 4))
      × (serve_dirty whom page s ≡ refused_or_null s whom (req_word page 4))
unfolding serve_map serve_set_size serve_close serve_dirty
never_opened-halts s whom page low id closed no_page =
    let at : req_word page 0 % maxopen ≡ req_word page 0 = omega (arith, low) in
    let valid : is_invalid s (req_word page 0) ≡ false = rw at (rw no_page (ground (arith, id))) in
    let null : (s.opentab (req_word page 0 % maxopen)).o_file ≡ none =
      ap (λ (i : ℕ). (s.opentab i).o_file) at ∙ closed in
    let block : null_block whom (req_word page 4 / by2blk) s
        ≡ refused_or_null s whom (req_word page 4) =
      null_block_lem s whom (req_word page 4) in
    (
      rw valid (rw null refl),
      rw valid (rw null refl),
      rw valid (rw null block),
      rw valid (rw null block),
    )
