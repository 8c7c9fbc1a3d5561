-- ===== src/Hitl/Prompting/Stamps.antt =====
-- A stamp and its log row are never apart, and no waiting action is passed over.
use ezra.Common.{
  ℕ, zero, suc, String, Bool, true, false, not, ◌&&◌, ◌||◌, Option, none, some, List, [], ◌∷◌, ◌++◌,
  str_eq, any, any-snoc, all, ◌∙◌, Attempt, returned, ◌≡◌, refl, arith, eq_iff, sym, ap, subst,
  Bool-cases, inl, inr, ◌⊎◌,
}
use ezra.Hitl.Value.{Value}
use ezra.Hitl.Table.{PendingAction, Table, has_id, is_pending, set_prompt_message_id}
use ezra.Hitl.Prompting.{Office, is_unstamped, letter_of, bury, give_up}
use ezra.Tools.{ToolRegistry}
use ezra.Transport.SendClass.{approval_send_id, is_permanent_send_error}
use ezra.Transport.SentLog.{SentLog, SentLogEntry, has_key, record_send}
use ezra.Transport.Deliver.{Message, DeadLetter}
use ezra.Crash.{Leads, effect}

-- The send of the action's prompt is in the log.
abbrev pub logged : String → SentLog → Bool
logged action log = any (has_key (approval_send_id action)) log

-- A stamped row is logged.
abbrev pub all_logged : {W : Type 0} → Office W → Bool
all_logged s = all (λ r. is_unstamped r || logged r.action_id s.net.log) s.table

-- Pending, of the conversation, and without a prompt.
abbrev pub is_waiting : String → PendingAction → Bool
is_waiting conversation r =
    str_eq r.conversation_id conversation && is_pending r.status && is_unstamped r

abbrev pub buried : List DeadLetter → String → Bool
buried dead action = any (λ d. str_eq d.idempotency_key (approval_send_id action)) dead

abbrev pub among : List PendingAction → String → Bool
among rows action = any (λ y. str_eq action y.action_id) rows

-- A waiting row has its prompt among the dead letters, or is among the rows to come.
abbrev pub all_handled : String → List DeadLetter → List PendingAction → Table → Bool
all_handled conversation dead rows t =
    all (λ r. not (is_waiting conversation r) || buried dead r.action_id || among rows r.action_id)
      t

known_key :
    (e : SentLogEntry) (key : String) (log : SentLog)
    → any (has_key e.idempotency_key) log ≡ true
    → (any (has_key key) log ≡ true) ⊎ (str_eq e.idempotency_key key ≡ true)
    → any (has_key key) log ≡ true
known_key e key log k (inl h) = h
known_key e key log k (inr h) =
    subst (λ x. any (has_key x) log ≡ true) ((eq_iff e.idempotency_key key).0 h) k

pub record_send-logs :
    (e : SentLogEntry) (key : String) (log : SentLog)
    → (any (has_key key) log ≡ true) ⊎ (str_eq e.idempotency_key key ≡ true)
    → any (has_key key) (record_send e log).1 ≡ true
unfolding record_send
record_send-logs e key log h = elim (Bool-cases (any (has_key e.idempotency_key) log)) [
  | inl k ↦ rw k (known_key e key log k h)
  | inr k ↦ rw k (any-snoc (has_key key) log e h)
]

pub logged-stamped :
    (id message : String) (log : SentLog) (t : Table)
    → logged id log ≡ true
    → all (λ r. is_unstamped r || logged r.action_id log) t ≡ true
    → all (λ r. is_unstamped r || logged r.action_id log) (set_prompt_message_id id message t).1
      ≡ true
unfolding set_prompt_message_id
logged-stamped id message log [] k h = refl
logged-stamped id message log (r ∷ t) k h = elim (Bool-cases (has_id id r)) [
  | inl e ↦ rw e (
      ground (
        arith,
        subst (λ x. logged x log ≡ true) (sym ((eq_iff r.action_id id).0 e)) k,
        logged-stamped id message log t k,
      ))
  | inr e ↦ rw e (ground (arith, logged-stamped id message log t k))
]

pub logged-grows :
    (e : SentLogEntry) (log : SentLog) (t : Table)
    → all (λ r. is_unstamped r || logged r.action_id log) t ≡ true
    → all (λ r. is_unstamped r || logged r.action_id (record_send e log).1) t ≡ true
logged-grows e log [] h = refl
logged-grows e log (r ∷ t) h = elim (Bool-cases (logged r.action_id log)) [
  | inl k ↦
      ground
        (arith, record_send-logs e (approval_send_id r.action_id) log (inl k), logged-grows e log t)
  | inr k ↦ ground (arith, k, logged-grows e log t)
]

pub handled-stamped :
    (conversation id message : String) (a : PendingAction) (dead : List DeadLetter)
    (rows : List PendingAction) (t : Table)
    → a.action_id ≡ id
    → all_handled conversation dead (a ∷ rows) t ≡ true
    → all_handled conversation dead rows (set_prompt_message_id id message t).1 ≡ true
unfolding set_prompt_message_id
handled-stamped conversation id message a dead rows [] e h = refl
handled-stamped conversation id message a dead rows (r ∷ t) e h = elim (Bool-cases (has_id id r)) [
  | inl k ↦ rw k (ground (arith, handled-stamped conversation id message a dead rows t e))
  | inr k ↦ rw k (
      ground (
        arith,
        subst (λ x. str_eq r.action_id x ≡ false) (sym e) k,
        handled-stamped conversation id message a dead rows t e,
      ))
]

buried-same :
    (a r : PendingAction) (dead : List DeadLetter) (d : DeadLetter)
    → d.idempotency_key ≡ approval_send_id a.action_id
    → str_eq r.action_id a.action_id ≡ true
    → buried (dead ++ d ∷ []) r.action_id ≡ true
buried-same a r dead d e k =
    any-snoc (λ d. str_eq d.idempotency_key (approval_send_id r.action_id)) dead d
      (inr (
        (eq_iff d.idempotency_key (approval_send_id r.action_id)).1
          (e ∙ ap approval_send_id (sym ((eq_iff r.action_id a.action_id).0 k)))))

buried-more :
    (dead : List DeadLetter) (d : DeadLetter) (action : String)
    → buried dead action ≡ true
    → buried (dead ++ d ∷ []) action ≡ true
buried-more dead d action h =
    any-snoc (λ d. str_eq d.idempotency_key (approval_send_id action)) dead d (inl h)

handled-buried :
    (conversation : String) (a : PendingAction) (dead : List DeadLetter) (d : DeadLetter)
    (rows : List PendingAction) (t : Table)
    → d.idempotency_key ≡ approval_send_id a.action_id
    → all_handled conversation dead (a ∷ rows) t ≡ true
    → all_handled conversation (dead ++ d ∷ []) rows t ≡ true
handled-buried conversation a dead d rows [] e h = refl
handled-buried conversation a dead d rows (r ∷ t) e h =
    elim (Bool-cases (str_eq r.action_id a.action_id)) [
      | inl k ↦
          ground (arith, buried-same a r dead d e k, handled-buried conversation a dead d rows t e)
      | inr k ↦
          ground (
            arith,
            k,
            buried-more dead d r.action_id,
            handled-buried conversation a dead d rows t e,
          )
    ]

module _ {W V : Type 0} (transport_send : Message → W → Attempt String × W)
    (stringify : Value → String) (registry : Option (ToolRegistry V)) (dead_letter : Bool)
    (conversation : String) where
  abbrev pub Logged : Office W → Type 0
  Logged s = all_logged s ≡ true

  abbrev pub Handled : List PendingAction → Office W → Type 0
  Handled rows s = all_handled conversation s.net.dead rows s.table ≡ true

  -- After the attempt: a receipt is still to be stamped, none means that the prompt is buried.
  abbrev pub Tried : PendingAction → List PendingAction → Option String → Office W → Type 0
  Tried a rows none s = Logged s × Handled rows s
  Tried a rows (some id) s = Logged s × Handled (a ∷ rows) s

  bury-Leads :
      (a : PendingAction) (rows : List PendingAction) (error : String) (n : ℕ) (s : Office W)
      → Logged s
      → Handled (a ∷ rows) s
      → Leads Logged (Tried a rows) (
          effect
            (λ s. (
              returned none,
              bury transport_send stringify registry dead_letter conversation
                  (letter_of transport_send stringify registry dead_letter conversation a error)
                  s,
            ))
            n
            s)
  bury-Leads a rows error zero s l h = l
  bury-Leads a rows error (suc n) s l h =
      (l, handled-buried conversation a s.net.dead _ rows s.table refl h)

  pub give_up-Leads :
      (a : PendingAction) (rows : List PendingAction) (error : String) (n : ℕ) (s : Office W)
      → Logged s
      → Handled (a ∷ rows) s
      → Leads Logged
          (Tried a rows)
          (give_up transport_send stringify registry dead_letter conversation a error n s)
  unfolding give_up
  give_up-Leads a rows error n s l h =
      elim (Bool-cases (is_permanent_send_error error && dead_letter)) [
        | inl k ↦ rw k (bury-Leads a rows error n s l h)
        | inr k ↦ rw k l
      ]
