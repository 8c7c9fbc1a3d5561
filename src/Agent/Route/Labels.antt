-- ===== src/Agent/Route/Labels.antt =====
-- What the judge gets to see of the senders.
use text.Mathlib.Text.{starts_with}
use ezra.Common.{
  String, true, List, [], ◌∷◌, str_eq, any, map, ◌≡◌, refl, inl, inr, All, Bool-cases,
}
use ezra.Agent.{TurnMessage, user, assistant, tool}
use ezra.Agent.Route.{RouteMessage, render_route_state}
use ezra.Agent.Route.Turn.{member_label, to_route_messages, request_of, relabel, RouteTurnInput}

abbrev pub labels : List String
labels = "husband" ∷ "wife" ∷ "member" ∷ "assistant" ∷ []

-- A message whose sender is shown by one of the labels.
abbrev pub IsLabelled : RouteMessage → Type 0
IsLabelled m = any (str_eq m.from) labels ≡ true

module _ (husband wife : List String) where
  member_label-listed :
      (sender : String) → any (str_eq (member_label husband wife sender)) labels ≡ true
  unfolding member_label
  member_label-listed sender = elim (Bool-cases (any (str_eq sender) husband)) [
    | inl h ↦ rw h refl
    | inr h ↦
        rw h
          (elim (Bool-cases (any (str_eq sender) wife)) [ inl k ↦ rw k refl | inr k ↦ rw k refl ])
  ]

  messages-IsLabelled :
      (ms : List TurnMessage) → All IsLabelled (to_route_messages (member_label husband wife) ms)
  unfolding to_route_messages
  messages-IsLabelled [] = tt
  messages-IsLabelled (user sender content ∷ ms) =
      elim (Bool-cases (starts_with sender "system:")) [
        | inl h ↦ rw h (messages-IsLabelled ms)
        | inr h ↦ rw h (member_label-listed sender, messages-IsLabelled ms)
      ]
  messages-IsLabelled (assistant content calls ∷ ms) = elim (Bool-cases (str_eq content "")) [
    | inl h ↦ rw h (messages-IsLabelled ms)
    | inr h ↦ rw h (refl, messages-IsLabelled ms)
  ]
  messages-IsLabelled (tool id content ∷ ms) = messages-IsLabelled ms

  latest-IsLabelled :
      (ms : List RouteMessage) → All IsLabelled (map (relabel (member_label husband wife)) ms)
  latest-IsLabelled [] = tt
  latest-IsLabelled (m ∷ ms) = (member_label-listed m.from, latest-IsLabelled ms)

  -- Whoever sent them, the messages of the transcript and the latest ones reach the judge under one
  -- of the four labels, never under a sender's id.
  pub request_of-IsLabelled :
      (input : RouteTurnInput)
      → All IsLabelled (to_route_messages (member_label husband wife) input.prior)
        × All IsLabelled (request_of (member_label husband wife) input).latest_messages
  unfolding request_of render_route_state
  request_of-IsLabelled input = (messages-IsLabelled input.prior, latest-IsLabelled input.latest)
