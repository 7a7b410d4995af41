-- ===== src/Server/Answers.antt =====
-- The loop of fs/serv.c over several requests: who is answered, and in which order.
use jos_buaa_a20_porting.Prelude.{
  ℕ, ◌<◌, ◌≡◌, ◌≢◌, refl, ap, ◌∙◌, List, [], ◌∷◌, done, Ensures, Ensures-done, Ensures-mono,
  Ensures-and_then, bit_and,
}
use jos_buaa_a20_porting.Mmu.{pte_v}
use jos_buaa_a20_porting.Server.{Serv, Answer, Message, serve_round, serve}
use jos_buaa_a20_porting.Server.Requests.{Answered, serve_round-Ensures}

-- messages with a page that ask for anything but an opening
abbrev pub AreRequests : List Message → Type 0
AreRequests [] = Unit
AreRequests (m ∷ ms) = ((bit_and m.perm pte_v ≢ 0) × (1 < m.req) × (m.req < 8)) × AreRequests ms

-- to whom answers went, latest first
abbrev pub receivers : List Answer → List ℕ
receivers [] = []
receivers (a ∷ rest) = a.whom ∷ receivers rest

-- the senders of messages, latest first, on top of `ws`
abbrev pub senders : List Message → List ℕ → List ℕ
senders [] ws = ws
senders (m ∷ ms) ws = senders ms (m.whom ∷ ws)

abbrev AllAnswered : (ms : List Message) → Serv → Serv → Type 0
AllAnswered ms s t =
    (t.opentab ≡ s.opentab) × (receivers t.answers ≡ senders ms (receivers s.answers))

serve-Ensures :
    (ms : List Message) (s : Serv) → AreRequests ms → Ensures (λ _. AllAnswered ms s) (serve ms s)
unfolding serve
serve-Ensures [] s h = (refl, refl)
serve-Ensures (m ∷ ms) s ((valid, lo, hi), h) =
    Ensures-and_then (λ _. Answered m.whom s) (λ _. AllAnswered (m ∷ ms) s) (serve_round m s) _
      (serve_round-Ensures s m valid lo hi)
      (λ _ t a.
        Ensures-mono (λ _. AllAnswered ms t) (λ _. AllAnswered (m ∷ ms) s) (serve ms t)
          (serve-Ensures ms t h)
          (λ _ u all.
            let (x, added, to) = a.answer in
            let now : receivers t.answers ≡ m.whom ∷ receivers s.answers =
              ap receivers added ∙ ap (λ (w : ℕ). w ∷ receivers s.answers) to in
            (all.0 ∙ a.table, all.1 ∙ ap (senders ms) now)))

-- When `serve` is done with a sequence of requests of which none is an opening, each of their
-- senders has had exactly one answer, in the order of the requests, and the table of open files is
-- as before.
pub serve-Answered :
    (ms : List Message) (s t : Serv)
    → AreRequests ms
    → serve ms s ≡ done tt t
    → (t.opentab ≡ s.opentab) × (receivers t.answers ≡ senders ms (receivers s.answers))
serve-Answered ms s t h run = Ensures-done (λ _. AllAnswered ms s) (serve-Ensures ms s h) run
