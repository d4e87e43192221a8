-- ===== src/LibMain/Commands.antt =====
-- The commands that CLibEzspMain (src/ezsp/lib-ezsp-main.cpp) gives to the adapter, in their order.
use libezsp.Common.{ℕ, ◌≡◌, ◌∙◌, refl, ap, sym, List, [], ◌∷◌, ◌++◌}
use mathlib.Core.List.{append_assoc}
use libezsp.Commissioning.{Aes}
use libezsp.Effects.{Effect, sends, effects_of, state_of}
use libezsp.LibMain.{LibMain}
use libezsp.LibMain.Handlers.{handle_ezsp_rx_message}
use libezsp.LibMain.Negotiation.{Received, handle_messages}

abbrev pub Command : Type 0
Command = ℕ × List ℕ

abbrev command : Effect → List Command
command (sends cmd payload) = (cmd, payload) ∷ []
command _ = []

abbrev pub commands : List Effect → List Command
commands [] = []
commands (e ∷ es) = command e ++ commands es

pub commands-append : (es fs : List Effect) → commands (es ++ fs) ≡ commands es ++ commands fs
commands-append [] fs = refl
commands-append (e ∷ es) fs =
    ap (λ cs. command e ++ cs) (commands-append es fs)
    ∙ sym (append_assoc (command e) (commands es) (commands fs))

-- What messages make of the library, and the commands that it gives.
abbrev pub answered : Aes → List Received → LibMain → LibMain × List Command
answered aes rs m = let (m', es) = handle_messages aes rs m in (m', commands es)

-- One message makes a state of another one, with the commands that are given.
abbrev pub Gives : Aes → Received → LibMain → LibMain → List Command → Type 0
Gives aes r m m' cs =
    let out = handle_ezsp_rx_message aes r.draws r.cmd r.msg m in
    (state_of out ≡ m') × (commands (effects_of out) ≡ cs)

pub answered-cons :
    (aes : Aes) (r : Received) (rs : List Received) (m m' m'' : LibMain) (cs cs' : List Command)
    → Gives aes r m m' cs
    → answered aes rs m' ≡ (m'', cs')
    → answered aes (r ∷ rs) m ≡ (m'', cs ++ cs')
unfolding handle_messages
answered-cons aes r rs m m' m'' cs cs' (state, given) rest =
    let out = handle_ezsp_rx_message aes r.draws r.cmd r.msg m in
    ap (λ c. ((handle_messages aes rs (state_of out)).0, c))
      (commands-append (effects_of out) (handle_messages aes rs (state_of out)).1)
    ∙ ap (λ c. ((handle_messages aes rs (state_of out)).0, c ++ (answered aes rs (state_of out)).1))
        given
    ∙ ap (λ n. ((answered aes rs n).0, cs ++ (answered aes rs n).1)) state
    ∙ ap (λ p. (p.0, cs ++ p.1)) rest
