-- ===== src/Server/Requests.antt =====
-- The requests of fs/serv.c: the answer that each gets, and what becomes of the table.
use jos_buaa_a20_porting.Prelude.{
  leb, ℕ, ◌/◌, ◌%◌, ◌<◌, ◌≡◌, ◌≢◌, refl, arith, false, Option, none, some, ◌∷◌, Bool-cases, inl,
  inr, ◌==◌, done, Run, Cmd, Ensures, Ensures-done, Ensures-lift, and_then, lift, bit_and,
}
use jos_buaa_a20_porting.Mmu.{pte_v}
use jos_buaa_a20_porting.Mm.{Ret, good, bad, inval}
use jos_buaa_a20_porting.Blocks.{Fs, by2blk, fs_sync}
use jos_buaa_a20_porting.Files.{nindirect, file_get_block, file_dirty, file_set_size, file_close}
use jos_buaa_a20_porting.Paths.{file_remove}
use jos_buaa_a20_porting.Server.{
  Serv, Answer, Message, maxopen, shared_perm, is_invalid, req_word, req_path, ipc_send, with_file,
  on_file, null_block, send_result, open_lookup, serve_map, serve_set_size, serve_close,
  serve_dirty, serve_remove, serve_sync, dispatch, serve_round,
}

-- `t` is `s` after one more answer to `whom`, with whatever became of the files
pub record Answered (whom : ℕ) (s t : Serv) : Type 0 where
  pub table : t.opentab ≡ s.opentab
  pub same_refs : t.refs ≡ s.refs
  pub same_filefd : t.filefd ≡ s.filefd
  pub answer : (a : Answer) × (t.answers ≡ a ∷ s.answers) × (a.whom ≡ whom)

ipc_send-Answered :
    (s : Serv) (t : Fs) (whom : ℕ) (value : Ret ℕ) (srcva perm : ℕ)
    → Ensures (λ _. Answered whom s) (ipc_send whom value srcva perm (record s { fs = t }))
ipc_send-Answered s t whom value srcva perm = record {
  table = refl;
  same_refs = refl;
  same_filefd = refl;
  answer = (_, refl, refl);
}

with_file-Answered :
    (s : Serv) (whom fileid : ℕ) (null : Cmd Serv (Unit {0})) (g : ℕ → Cmd Serv (Unit {0}))
    → Ensures (λ _. Answered whom s) (null s)
    → ((f : ℕ) → Ensures (λ _. Answered whom s) (g f s))
    → Ensures (λ _. Answered whom s) (with_file whom fileid null g s)
unfolding open_lookup
with_file-Answered s whom fileid null g n h = elim (Bool-cases (is_invalid s fileid)) [
  | inl refused ↦ rw refused (ipc_send-Answered s s.fs whom (bad inval) 0 0)
  | inr found ↦ rw found (by_file (s.opentab (fileid % maxopen)).o_file)
]
  where
    by_file : (o : Option ℕ) → Ensures (λ _. Answered whom s) (on_file null g o s)
    by_file none = n
    by_file (some f) = h f

null_block-Answered :
    (s : Serv) (whom filebno : ℕ) → Ensures (λ _. Answered whom s) (null_block whom filebno s)
null_block-Answered s whom filebno = elim (Bool-cases (leb nindirect filebno)) [
  | inl past ↦ rw past (ipc_send-Answered s s.fs whom (bad inval) 0 0)
  | inr within ↦ rw within tt
]

-- the answer to a result of the file system
answer_result :
    {A : Type 0} (s : Serv) (whom : ℕ) (r : Run Fs (Ret A)) (srcva : A → ℕ) (perm : ℕ)
    → Ensures
        (λ _. Answered whom s)
        (and_then (lift r (λ t. record s { fs = t })) (send_result whom srcva perm))
answer_result {A} s whom r srcva perm =
    Ensures-lift (λ _. Answered whom s) r (λ t. record s { fs = t }) (send_result whom srcva perm)
      by_result
  where
    by_result :
        (r : Ret A) (t : Fs)
        → Ensures (λ _. Answered whom s) (send_result whom srcva perm r (record s { fs = t }))
    by_result (bad e) t = ipc_send-Answered s t whom (bad e) 0 0
    by_result (good v) t = ipc_send-Answered s t whom (good 0) (srcva v) perm

answer_done :
    {A : Type 0} (s : Serv) (whom : ℕ) (r : Run Fs A)
    → Ensures
        (λ _. Answered whom s)
        (and_then (lift r (λ t. record s { fs = t })) (λ _. ipc_send whom (good 0) 0 0))
answer_done s whom r =
    Ensures-lift (λ _. Answered whom s) r (λ t. record s { fs = t })
      (λ _. ipc_send whom (good 0) 0 0) (λ a t. ipc_send-Answered s t whom (good 0) 0 0)

module _ (s : Serv) (whom : ℕ) (page : ℕ → ℕ) where
  serve_map-Answered : Ensures (λ _. Answered whom s) (serve_map whom page s)
  unfolding serve_map
  serve_map-Answered =
      with_file-Answered s whom (req_word page 0) _ _
        (null_block-Answered s whom (req_word page 4 / by2blk))
        λ f.
          answer_result s whom (file_get_block f (req_word page 4 / by2blk) s.fs) (λ b. b)
            shared_perm

  serve_set_size-Answered : Ensures (λ _. Answered whom s) (serve_set_size whom page s)
  unfolding serve_set_size
  serve_set_size-Answered =
      with_file-Answered s whom (req_word page 0) _ _ tt
        λ f. answer_result s whom (file_set_size f (req_word page 4) s.fs) (λ _. 0) 0

  serve_dirty-Answered : Ensures (λ _. Answered whom s) (serve_dirty whom page s)
  unfolding serve_dirty
  serve_dirty-Answered =
      with_file-Answered s whom (req_word page 0) _ _
        (null_block-Answered s whom (req_word page 4 / by2blk))
        λ f. answer_result s whom (file_dirty f (req_word page 4) s.fs) (λ _. 0) 0

  serve_close-Answered : Ensures (λ _. Answered whom s) (serve_close whom page s)
  unfolding serve_close
  serve_close-Answered =
      with_file-Answered s whom (req_word page 0) _ _ tt λ f. answer_done s whom (file_close f s.fs)

  serve_remove-Answered : Ensures (λ _. Answered whom s) (serve_remove whom page s)
  unfolding serve_remove
  serve_remove-Answered = answer_result s whom (file_remove (req_path page) s.fs) (λ _. 0) 0

  serve_sync-Answered : Ensures (λ _. Answered whom s) (serve_sync whom s)
  unfolding serve_sync
  serve_sync-Answered = answer_done s whom (fs_sync s.fs)

  pub dispatch-Answered :
      (req : ℕ) → 1 < req → req < 8 → Ensures (λ _. Answered whom s) (dispatch req whom page s)
  unfolding dispatch
  dispatch-Answered req lo hi = ground (
    arith, serve_map-Answered, serve_set_size-Answered, serve_close-Answered, serve_dirty-Answered,
    serve_remove-Answered, serve_sync-Answered,
  )

pub serve_round-Ensures :
    (s : Serv) (m : Message)
    → bit_and m.perm pte_v ≢ 0
    → 1 < m.req
    → m.req < 8
    → Ensures (λ _. Answered m.whom s) (serve_round m s)
unfolding serve_round
serve_round-Ensures s m valid lo hi =
    let open_page : (bit_and m.perm pte_v == 0) ≡ false = ground (arith, valid) in
    rw open_page (dispatch-Answered s m.whom m.page m.req lo hi)

-- Whatever a message asks for but an opening: when its round of `serve` is done, its sender has had
-- exactly one answer, and the table of open files is as before.
pub serve_round-Answered :
    (s t : Serv) (m : Message)
    → bit_and m.perm pte_v ≢ 0
    → 1 < m.req
    → m.req < 8
    → serve_round m s ≡ done tt t
    → Answered m.whom s t
serve_round-Answered s t m valid lo hi run =
    Ensures-done (λ _. Answered m.whom s) (serve_round-Ensures s m valid lo hi) run
