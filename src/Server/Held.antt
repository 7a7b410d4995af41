-- ===== src/Server/Held.antt =====
-- The life of an open file of fs/serv.c: while a client holds the page of an entry, whatever the
-- server and the clients do, the entry stays and its identifier is found.
use jos_buaa_a20_porting.Prelude.{
  ℕ, ◌+◌, ◌-◌, ◌%◌, ◌≤◌, ◌<◌, ◌≡◌, ◌≢◌, refl, ap, ◌∙◌, sym, arith, true, false, Option, none, some,
  Bool-cases, inl, inr, ◌==◌, ltb, ◌&&◌, done, Ensures, Ensures-done, Ensures-mono,
  Ensures-and_then, Ensures-lift, bit_and,
}
use mathlib.Core.Path.{subst}
use jos_buaa_a20_porting.Mmu.{pte_v}
use jos_buaa_a20_porting.Mm.{Ret, good, bad}
use jos_buaa_a20_porting.Queue.{update}
use jos_buaa_a20_porting.Paths.{file_open}
use jos_buaa_a20_porting.Server.{
  Open, Serv, Message, maxopen, maxpathlen, is_invalid, req_word, req_path, open_lookup, fill_open,
  or_unset, report, is_negative, status, serve_open, dispatch, serve_round,
}
use jos_buaa_a20_porting.Server.Entries.{refs_of}
use jos_buaa_a20_porting.Server.Fresh.{HasIds, Opened, open_alloc-Opened}
use jos_buaa_a20_porting.Server.Requests.{Answered, dispatch-Answered}

-- entry `i` is the same, and the table is still well formed
abbrev Kept : (i : ℕ) → Serv → Serv → Type 0
Kept i s t = (t.opentab i ≡ s.opentab i) × HasIds t

Answered-Kept : (i whom : ℕ) {s t : Serv} → HasIds s → Answered whom s t → Kept i s t
Answered-Kept i whom {s} {t} h a = (
  ap (λ (o : ℕ → Open). o i) a.table,
  record {
    ids = λ j hj. ap (λ (o : ℕ → Open). (o j).o_fileid % maxopen) a.table ∙ h.ids j hj;
    pages = λ j hj. ap (λ (o : ℕ → Open). (o j).o_ff) a.table ∙ h.pages j hj;
  },
)

report-Kept :
    (i whom : ℕ) (r : Ret ℕ) (s t : Serv) → Kept i s t → Ensures (λ _. Kept i s) (report whom r t)
report-Kept i whom r s t h = elim (Bool-cases (is_negative r)) [
  | inl n ↦ rw n (h.0, record { ids = h.1.ids; pages = h.1.pages })
  | inr p ↦ rw p h
]

fill_open-Kept :
    (i whom : ℕ) (o : Option ℕ) (f : Ret ℕ) (omode : ℕ) (s t : Serv)
    → ((k : ℕ) → o ≡ some k → k ≢ i)
    → Kept i s t
    → Ensures (λ _. Kept i s) (fill_open whom o f omode t)
unfolding fill_open
fill_open-Kept i whom none f omode s t other h = tt
fill_open-Kept i whom (some k) (bad e) omode s t other h = tt
fill_open-Kept i whom (some k) (good f) omode s t other h =
    let ne : k ≢ i = other k refl in
    (
      ground (arith, ne, h.0),
      record {
        ids = λ j hj. ground (arith, h.1.ids j hj);
        pages = λ j hj. ground (arith, h.1.pages j hj);
      },
    )

Opened-Kept :
    {s t : Serv} (i : ℕ) (o : Option ℕ) (r : Ret ℕ)
    → HasIds s
    → 2 ≤ refs_of s i
    → Opened s (o, r) t
    → Kept i s t × ((k : ℕ) → o ≡ some k → k ≢ i)
Opened-Kept {s} {t} i none (bad e) h two same =
    ((ap (λ (u : Serv). u.opentab i) same, subst HasIds (sym same) h), λ k e. cc)
Opened-Kept i none (good id) h two never = absurd never
Opened-Kept {s} {t} i (some k) r h two (lt, unused, before, id, fresh, one, others, ids) =
    let ne : k ≢ i = λ e. absurd (omega (arith, two, unused, ap (refs_of s) e)) in
    ((others i (λ e. ne (sym e)), ids), λ k' e. ground (arith, ne, e))

or_unset-ne :
    (i : ℕ) (o unset : Option ℕ)
    → unset ≢ some i
    → ((k : ℕ) → o ≡ some k → k ≢ i)
    → (k : ℕ) → or_unset o unset ≡ some k
    → k ≢ i
or_unset-ne i none unset apart other k e same = apart (e ∙ ap some same)
or_unset-ne i (some j) unset apart other k e same = other k e same

serve_open-Kept :
    (i whom : ℕ) (page : ℕ → ℕ) (s : Serv)
    → HasIds s
    → 2 ≤ refs_of s i
    → s.unset ≢ some i
    → Ensures (λ _. Kept i s) (serve_open whom page s)
unfolding serve_open
serve_open-Kept i whom page s h two apart =
    let ((o, r), t, run, opened) = open_alloc-Opened s h in
    let (kept, other) = Opened-Kept i o r h two opened in
    rw run (
      Ensures-and_then (λ _. Kept i s) (λ _. Kept i s) (report whom r t) _
        (report-Kept i whom r s t kept)
        (λ _ u hu.
          Ensures-lift (λ _. Kept i s) (file_open (req_path page) u.fs) (λ f. record u { fs = f }) _
            (λ f v.
              Ensures-and_then (λ _. Kept i s) (λ _. Kept i s)
                (report whom (status f) (record u { fs = v })) _
                (report-Kept i whom (status f) s (record u { fs = v })
                  (hu.0, record { ids = hu.1.ids; pages = hu.1.pages }))
                (λ _ w hw.
                  fill_open-Kept i whom (or_unset o s.unset) f (req_word page maxpathlen) s w
                    (or_unset-ne i o s.unset apart other) hw))))

opening :
    (req whom : ℕ) (page : ℕ → ℕ) (s : Serv)
    → (req == 1) ≡ true
    → dispatch req whom page s ≡ serve_open whom page s
unfolding dispatch
opening req whom page s h = rw h refl

unknown_request :
    (req whom : ℕ) (page : ℕ → ℕ) (s : Serv)
    → (req == 1) ≡ false
    → (ltb 1 req && ltb req 8) ≡ false
    → dispatch req whom page s ≡ done tt s
unfolding dispatch
unknown_request req whom page s a b = ground arith

dispatch-Kept :
    (i req whom : ℕ) (page : ℕ → ℕ) (s : Serv)
    → HasIds s
    → 2 ≤ refs_of s i
    → s.unset ≢ some i
    → Ensures (λ _. Kept i s) (dispatch req whom page s)
dispatch-Kept i req whom page s h two apart = elim (Bool-cases (req == 1)) [
  | inl opened ↦
      let run : dispatch req whom page s ≡ serve_open whom page s =
        opening req whom page s opened in
      rw run (serve_open-Kept i whom page s h two apart)
  | inr other ↦ elim (Bool-cases (ltb 1 req && ltb req 8)) [
    | inl known ↦
        Ensures-mono (λ _. Answered whom s) (λ _. Kept i s) (dispatch req whom page s)
          (dispatch-Answered s whom page req (ground (arith, known)) (ground (arith, known)))
          (λ _ t a. Answered-Kept i whom h a)
    | inr unknown ↦ rw (unknown_request req whom page s other unknown) (refl, h)
  ]
]

serve_round-Kept :
    (i : ℕ) (m : Message) (s : Serv)
    → HasIds s
    → 2 ≤ refs_of s i
    → s.unset ≢ some i
    → Ensures (λ _. Kept i s) (serve_round m s)
unfolding serve_round
serve_round-Kept i m s h two apart = elim (Bool-cases (bit_and m.perm pte_v == 0)) [
  | inl invalid ↦ rw invalid (refl, h)
  | inr valid ↦ rw valid (dispatch-Kept i m.req m.whom m.page s h two apart)
]

-- what can happen to the server: a round for a message; a client maps a page that there is, as it
-- does with an answer; a client gives up a page that the server has as well
pub data Step : Serv → Serv → Type 0 where
  request : (m : Message) {s t : Serv} → serve_round m s ≡ done tt t → Step s t
  share :
      (s : Serv) (a : ℕ)
      → 1 ≤ s.refs a
      → Step s (record s { refs = update s.refs a (s.refs a + 1) })
  -- something else comes to lie where the server's `o` will be
  stray : (s : Serv) (o : Option ℕ) → Step s (record s { unset = o })
  drop :
      (s : Serv) (a : ℕ)
      → 2 ≤ s.refs a
      → Step s (record s { refs = update s.refs a (s.refs a - 1) })

Step-Kept :
    {s t : Serv} (i : ℕ) → HasIds s → 2 ≤ refs_of s i → s.unset ≢ some i → Step s t → Kept i s t
Step-Kept {s} {t} i h two apart (request m run) =
    Ensures-done (λ _. Kept i s) (serve_round-Kept i m s h two apart) run
Step-Kept i h two apart (share s a one) = (refl, record { ids = h.ids; pages = h.pages })
Step-Kept i h two apart (stray s o) = (refl, record { ids = h.ids; pages = h.pages })
Step-Kept i h two apart (drop s a more) = (refl, record { ids = h.ids; pages = h.pages })

-- steps during all of which some client holds the page of entry `i`, and no unset variable of the
-- server happens to point to that entry
pub data Holding (i : ℕ) (s : Serv) : Serv → Type 0 where
  here : Holding i s s
  next :
      {t u : Serv} → Holding i s t → 2 ≤ refs_of t i → t.unset ≢ some i → Step t u → Holding i s u

Holding-Kept : (i : ℕ) {s t : Serv} → HasIds s → Holding i s t → Kept i s t
Holding-Kept i h here = (refl, h)
Holding-Kept i h (next before two apart st) =
    let (same, ids) = Holding-Kept i h before in
    let (same', ids') = Step-Kept i ids two apart st in (same' ∙ same, ids')

-- On a well-formed table, as long as a client holds the page of an open file, and no unset variable
-- of the server happens to point to its entry, the server finds the file by the identifier that it
-- had at first, at the same entry, whatever requests it has served since and whatever pages the
-- clients have taken or given up.
pub held_file_found :
    (s t : Serv) (i : ℕ)
    → i < maxopen
    → HasIds s
    → Holding i s t
    → 2 ≤ refs_of t i
    → (open_lookup (s.opentab i).o_fileid t ≡ done (good i) t) × (t.opentab i ≡ s.opentab i)
unfolding open_lookup
held_file_found s t i lt h steps two =
    let (same, ids) = Holding-Kept i h steps in
    let at : (s.opentab i).o_fileid % maxopen ≡ i = h.ids i lt in
    let id : (t.opentab i).o_fileid ≡ (s.opentab i).o_fileid = ap (λ (o : Open). o.o_fileid) same in
    let valid : is_invalid t (s.opentab i).o_fileid ≡ false = rw at (ground (arith, id, two)) in
    (rw valid (rw at refl), same)
