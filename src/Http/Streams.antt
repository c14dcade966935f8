-- ===== src/Http/Streams.antt =====
-- api.go: what serveEvents writes, and where it ends.
use sudo_service.Prelude.{
  List, [], ◌∷◌, ◌++◌, Bool, true, false, ◌≡◌, refl, ap, ◌∙◌, subst, All, if◌then◌else◌,
}
use sudo_service.Types.{SudoRequest, is_terminal_phase, Result, ok, Reply}
use sudo_service.Http.Message.{Body, with_body}
use sudo_service.Http.Callers.{find_by_uid}
use sudo_service.Http.Serve.{forward, refreshed, snapshot, stream, serve_events}
use sudo_service.Broadcaster.{Event}

-- The events leave the stream open.
abbrev pub Open : List Event → Type 0
Open = All (λ e. is_terminal_phase e.phase ≡ false)

-- The stream is the snapshot and `sent`; it has ended.
abbrev pub Sends : Bool → Reply (List SudoRequest) → List Event → SudoRequest → List Event → Type 0
Sends flushes again channel sr sent =
    (serve_events flushes again channel sr).result
    ≡ ok (with_body 200 (Body.events (snapshot (refreshed (find_by_uid again sr.uid) sr) ∷ sent)))

forward-terminal :
    (pre : List Event) (e : Event) (rest : List Event)
    → Open pre
    → is_terminal_phase e.phase ≡ true
    → forward (pre ++ e ∷ rest) ≡ pre ++ e ∷ []
unfolding forward
forward-terminal [] e rest h t = ap (λ b. e ∷ (if b then [] else forward rest)) t
forward-terminal (x ∷ pre) e rest h t =
    ap (λ b. x ∷ (if b then [] else forward (pre ++ e ∷ rest))) h.0
    ∙ ap (◌∷◌ x) (forward-terminal pre e rest h.1 t)

forward-Open : (channel : List Event) → Open channel → forward channel ≡ channel
unfolding forward
forward-Open [] h = refl
forward-Open (x ∷ channel) h =
    ap (λ b. x ∷ (if b then [] else forward channel)) h.0 ∙ ap (◌∷◌ x) (forward-Open channel h.1)

sends :
    (again : Reply (List SudoRequest)) (channel : List Event) (sr : SudoRequest) (b : Bool)
    → is_terminal_phase (refreshed (find_by_uid again sr.uid) sr).status.phase ≡ b
    → Sends true again channel sr (if b then [] else forward channel)
unfolding serve_events stream
sends again channel sr b h =
    ap
      (λ t. Result.ok (
        with_body 200 (
          Body.events (
            snapshot (refreshed (find_by_uid again sr.uid) sr)
            ∷ (if t then [] else forward channel)))))
      h

-- The status that the stream starts from is terminal.
abbrev pub has_ended : Reply (List SudoRequest) → SudoRequest → Bool
has_ended again sr = is_terminal_phase (refreshed (find_by_uid again sr.uid) sr).status.phase

Sends-if :
    (again : Reply (List SudoRequest)) (channel : List Event) (sr : SudoRequest) (sent : List Event)
    → forward channel ≡ sent
    → Sends true again channel sr (if has_ended again sr then [] else sent)
Sends-if again channel sr sent h =
    subst (λ es. Sends true again channel sr (if has_ended again sr then [] else es)) h
      (sends again channel sr (has_ended again sr) refl)

-- On a connection that can stream, serveEvents sends the snapshot of the request as it reads it
-- after the subscription, and after a terminal snapshot it ends. After any other it passes on the
-- events of the channel up to and with the first of a terminal phase, whatever follows, and all of
-- them if none is of a terminal phase.
pub serve_events-Sends :
    (again : Reply (List SudoRequest)) (sr : SudoRequest) (pre : List Event) (e : Event)
    (rest : List Event)
    → Open pre
    → is_terminal_phase e.phase ≡ true
    → Sends true again (pre ++ e ∷ rest) sr (if has_ended again sr then [] else pre ++ e ∷ [])
      × Sends true again pre sr (if has_ended again sr then [] else pre)
serve_events-Sends again sr pre e rest still t = (
  Sends-if again (pre ++ e ∷ rest) sr (pre ++ e ∷ []) (forward-terminal pre e rest still t),
  Sends-if again pre sr pre (forward-Open pre still),
)
