-- ===== src/Telemetry/Order.antt =====
-- The order in which the agent of app/telemetry.py publishes.
use mathlib.Core.Path.{subst}
use keekars_pi_vpn.Base.{
  append_nil, append_assoc, ◌≡◌, refl, sym, ◌∙◌, ap, ◌⊎◌, inl, inr, Bool, true, false, Option, none,
  some, List, [], ◌∷◌, ◌++◌, ◌==◌, if◌then◌else◌, filter, arith,
}
use keekars_pi_vpn.Base.Text.{Text, codes}
use keekars_pi_vpn.Base.Dict.{Dict}
use keekars_pi_vpn.Telemetry.Names.{TelemetrySettings}
use keekars_pi_vpn.Telemetry.Sensors.{Platform}
use keekars_pi_vpn.Telemetry.Collect.{Value}
use keekars_pi_vpn.Telemetry.Agent.{
  Message, Agent, Event, connack, callback_goes_on, connection_lost, loop_turn, config_message,
  availability_message, state_messages, connect_messages, on_connect, publish, publish_next, lose,
  publish_all, turn, step,
}

-- The messages that are to arrive at least once: all but those on the state.
abbrev pub announcements : {F : Type 0} → List (Message F) → List (Message F)
announcements = filter (λ m. m.qos == 1)

announcements-append :
    {F : Type 0} (xs ys : List (Message F))
    → announcements (xs ++ ys) ≡ announcements xs ++ announcements ys
unfolding filter
announcements-append [] ys = refl
announcements-append (m ∷ xs) ys = ground (arith, announcements-append xs ys)

nil_not_cons : {A P : Type 0} {x : A} {xs : List A} → [] ≡ x ∷ xs → P
nil_not_cons h = ground (arith, h)

true_not_false : {P : Type 0} → true ≡ false → P
true_not_false h = ground (arith, h)

module _ {F : Type 0} (uname : Platform) (settings : TelemetrySettings)
    (interfaces : List Text) where
  abbrev pub welcome : List (Message F)
  welcome =
      config_message uname settings interfaces
      ∷ availability_message uname settings interfaces (codes "online")
      ∷ []

  abbrev pub first_agent : Agent F
  first_agent = record { connected = false; pending = []; sent = [] }

  -- The agents that the two threads can come to before the loop ends
  pub data Reached : Agent F → Type 0 where
    start : Reached first_agent
    goes_on :
        {agent : Agent F}
        → Reached agent
        → (e : Event F) → Reached (step uname settings interfaces e agent)

  -- Without a connection nothing has been sent; with one, the announcements come in their order.
  abbrev pub IsOrdered : Agent F → Type 0
  IsOrdered agent =
      ((agent.connected ≡ false) × ((agent.pending ≡ []) × (agent.sent ≡ [])))
      ⊎ ((agent.connected ≡ true)
          × (announcements agent.sent ++ announcements agent.pending ≡ welcome))

  if-IsOrdered :
      (b : Bool) (x y : Agent F)
      → (b ≡ true → IsOrdered x)
      → (b ≡ false → IsOrdered y)
      → IsOrdered (if b then x else y)
  if-IsOrdered true x y h k = h refl
  if-IsOrdered false x y h k = k refl

  announced :
      (values : Option (Dict (Value F)))
      → announcements (connect_messages uname settings interfaces values) ≡ welcome
  unfolding connect_messages state_messages filter config_message availability_message
  announced none = refl
  announced (some v) = refl

  quiet_state :
      (values : Option (Dict (Value F)))
      → announcements (state_messages uname settings interfaces values) ≡ []
  unfolding state_messages filter
  quiet_state none = refl
  quiet_state (some v) = refl

  publish_next-IsOrdered :
      (p : List (Message F)) (agent : Agent F)
      → agent.pending ≡ p
      → IsOrdered agent
      → IsOrdered (publish_next p agent)
  unfolding publish
  publish_next-IsOrdered [] agent e h = h
  publish_next-IsOrdered (m ∷ rest) agent e (inl (c, (none_left, nothing))) =
      nil_not_cons (sym none_left ∙ e)
  publish_next-IsOrdered (m ∷ rest) agent e (inr (c, order)) = inr (
    c,
    ap (λ l. l ++ announcements rest) (announcements-append agent.sent (m ∷ []))
        ∙ (append_assoc (announcements agent.sent) (announcements (m ∷ [])) (announcements rest)
            ∙ (ap (λ l. announcements agent.sent ++ l) (sym (announcements-append (m ∷ []) rest))
                ∙ (ap (λ l. announcements agent.sent ++ announcements l) (sym e) ∙ order))),
  )

  sent-publish_all :
      (ms : List (Message F)) (agent : Agent F)
      → publish_all ms agent ≡ record agent { sent = agent.sent ++ ms }
  unfolding publish_all publish
  sent-publish_all [] agent = ap (λ l. record agent { sent = l }) (sym (append_nil agent.sent))
  sent-publish_all (m ∷ ms) agent =
      sent-publish_all ms (publish m agent)
      ∙ ap (λ l. record agent { sent = l }) (append_assoc agent.sent (m ∷ []) ms)

  turn-IsOrdered :
      (values : Option (Dict (Value F))) (agent : Agent F)
      → agent.connected ≡ true
      → IsOrdered agent
      → IsOrdered (publish_all (state_messages uname settings interfaces values) agent)
  turn-IsOrdered values agent c (inl (d, rest)) = true_not_false (sym c ∙ d)
  turn-IsOrdered values agent c (inr (d, order)) =
      subst IsOrdered
        (sym (sent-publish_all (state_messages uname settings interfaces values) agent))
        (inr (
          d,
          ap (λ l. l ++ announcements agent.pending)
                (announcements-append agent.sent (state_messages uname settings interfaces values)
                  ∙ (ap (λ l. announcements agent.sent ++ l) (quiet_state values)
                      ∙ append_nil (announcements agent.sent)))
              ∙ order,
        ))

  lose-IsOrdered :
      (p : List (Message F)) (agent : Agent F) → IsOrdered agent → IsOrdered (lose p agent)
  lose-IsOrdered [] agent h = inl (refl, (refl, refl))
  lose-IsOrdered (m ∷ rest) agent h = h

  step-IsOrdered :
      (e : Event F) (agent : Agent F)
      → IsOrdered agent
      → IsOrdered (step uname settings interfaces e agent)
  unfolding step on_connect turn filter
  step-IsOrdered (connack code values) agent h =
      if-IsOrdered agent.connected agent (on_connect uname settings interfaces code values agent)
        (λ _. h)
        (λ _. if-IsOrdered (code == 0) _ agent (λ _. inr (refl, announced values)) (λ _. h))
  step-IsOrdered callback_goes_on agent h = publish_next-IsOrdered agent.pending agent refl h
  step-IsOrdered connection_lost agent h = lose-IsOrdered agent.pending agent h
  step-IsOrdered (loop_turn values) agent h =
      if-IsOrdered agent.connected _ agent (λ c. turn-IsOrdered values agent c h) (λ _. h)

  -- However the turns of the agent's loop, of `on_connect` and the ends of connections follow each
  -- other: without a connection nothing is published; with one, what has been published and is
  -- still to be published by `on_connect` of the messages that are not states is the discovery
  -- message and then "online".
  pub reached-IsOrdered : {agent : Agent F} → Reached agent → IsOrdered agent
  reached-IsOrdered start = inl (refl, (refl, refl))
  reached-IsOrdered (goes_on {agent = agent} r e) = step-IsOrdered e agent (reached-IsOrdered r)
