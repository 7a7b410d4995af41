-- ===== src/FileCalls/Served.antt =====
-- An opening from the request of user/fsipc.c to the answer of fs/serv.c.
use jos_buaa_a20_porting.Prelude.{
  ℕ, ◌^◌, ◌<◌, ◌≡◌, ◌≢◌, refl, ap, ◌∙◌, false, arith, ◌==◌, some, List, ◌∷◌, length, Cmd, pure,
  done, and_then, bit_and,
}
use jos_buaa_a20_porting.Mmu.{word, pte_v}
use jos_buaa_a20_porting.Mm.{Ret, good}
use jos_buaa_a20_porting.Blocks.{Fs}
use jos_buaa_a20_porting.Paths.{file_open}
use jos_buaa_a20_porting.Server.{
  Serv, Message, maxpathlen, shared_perm, open_alloc, serve_open, dispatch, serve_round,
}
use jos_buaa_a20_porting.Server.Opening.{serve_open-Answered}
use jos_buaa_a20_porting.UserMem.{User}
use jos_buaa_a20_porting.FileCalls.{fsipc_open}
use jos_buaa_a20_porting.FileCalls.Encode.{AreChars, fsipc_open-request}

-- a message with a request to open
abbrev pub opening : (whom perm : ℕ) → (page : ℕ → ℕ) → Message
opening whom perm page = record { req = 1; whom = whom; perm = perm; page = page }

opening-serve_open :
    (whom perm : ℕ) (page : ℕ → ℕ) (s : Serv)
    → bit_and perm pte_v ≢ 0
    → serve_round (opening whom perm page) s ≡ serve_open whom page s
unfolding serve_round dispatch
opening-serve_open whom perm page s valid =
    let there : (bit_and perm pte_v == 0) ≡ false = ground (arith, valid) in rw there refl

-- A process that opens a path of fewer than 1024 characters asks the server with a page, and the
-- round of `serve` that this page leads to, where the server has a free entry and finds the file of
-- the path, answers the process with the page of that entry: it names the file of the path, its
-- identifier, and the mode that the process asked for.
pub fsipc_open-serve_round :
    (server : (req : ℕ) → (page : ℕ → ℕ) → (dstva : ℕ) → Cmd User (Ret ℕ × ℕ)) (c : User)
    (path : List ℕ) (omode fd whom perm : ℕ) (s t : Serv) (k id f : ℕ) (u : Fs)
    → length path < maxpathlen
    → AreChars path
    → omode < word
    → bit_and perm pte_v ≢ 0
    → open_alloc s ≡ done (some k, good id) t
    → id < 2 ^ 31
    → id ≡ (t.opentab k).o_fileid
    → file_open path t.fs ≡ done (good f) u
    → (page : ℕ → ℕ) × (v : Serv) × (fsipc_open server path omode fd c
        ≡ and_then (server 1 page fd (record c { fsipcbuf = page })) (λ r. pure r.0))
      × (serve_round (opening whom perm page) s ≡ done tt v)
      × (v.answers
          ≡ record { whom = whom; value = good 0; srcva = (t.opentab k).o_ff; perm = shared_perm }
            ∷ t.answers)
      × ((v.opentab k).o_file ≡ some f)
      × ((v.filefd (t.opentab k).o_ff).f_fileid ≡ id)
      × ((v.filefd (t.opentab k).o_ff).f_fd.fd_omode ≡ omode)
      × ((v.filefd (t.opentab k).o_ff).f_file ≡ u.node f)
fsipc_open-serve_round server c path omode fd whom perm s t k id f u short chars small valid alloc
      low same walk =
    let (page, asks, path_there, mode_there) =
      fsipc_open-request server c path omode fd short chars small in
    let (v, run, answer, file, entry_id, fileid, mode, node, others) =
      serve_open-Answered s t whom page k id f u alloc low same
        (ap (λ (p : List ℕ). file_open p t.fs) path_there ∙ walk) in
    (
      page,
      v,
      asks,
      opening-serve_open whom perm page s valid ∙ run,
      answer,
      file,
      fileid,
      mode ∙ mode_there,
      node,
    )
