-- ===== src/Reconciliation/Intents/Settled.antt =====
-- reconciliation_engine.py: which intents a run leaves in doubt.
use mathlib.Core.Path.{subst}
use trading_project.Base.{
  String, ◌||◌, ℕ, ◌≡◌, ◌⊎◌, inl, inr, refl, ◌∙◌, sym, Bool, true, false, Option, none, some, List,
  [], ◌∷◌, ◌==◌, any, eqb, ltb, nat_eq, if◌then◌else◌, Bool-cases, arith, eqb_iff,
}
use trading_project.Base.Dict.{Dict}
use trading_project.Enums.{
  IntentStatus, OrderStatus, PositionState, position_state_eq, InstanceStatus,
}
use trading_project.Models.{Position, Trade, OrderIntent, Order, Tag}
use trading_project.Broker.{BrokerOrder}
use trading_project.Orders.{is_terminal_status}
use trading_project.Orders.Table.{replace, first_found, get_by_broker_order_id, get_by_broker_tag}
use trading_project.Store.{find_intent, update_intent, find_trade}
use trading_project.Reconciliation.{
  Database, matches, find_position, record_break, error_and_freeze, move_position, freeze_found,
}
use trading_project.Reconciliation.Intents.{
  acknowledged, in_doubt, list_in_doubt, mark_intent, locate_order, or_create, apply_fill,
  by_status, resolve_complete, resolve_dead, resolve_intent_against_order, error_position_found,
  error_position_of_trade, error_position_of_intent, resolve_by_matches, resolve_found,
  reconcile_one_intent, reconcile_each, reconcile_intents,
}

module _ (id : ℕ) (status : IntentStatus) where
  abbrev restatus : Option OrderIntent → Option OrderIntent
  restatus none = none
  restatus (some i) = some (record i { status = status })

  find_intent-update :
      (j : ℕ) (is : List OrderIntent)
      → find_intent j (update_intent id (λ i. record i { status = status }) is)
        ≡ (if eqb j id then restatus (find_intent j is) else find_intent j is)
  unfolding find_intent update_intent
  find_intent-update j [] = ground arith
  find_intent-update j (i ∷ is) = ground (arith, find_intent-update j is)

  restatus-status :
      (o : Option OrderIntent) (i : OrderIntent) → restatus o ≡ some i → i.status ≡ status
  restatus-status none i e = cc
  restatus-status (some x) i e = ground arith

-- The rows of the intents `is'` come from `is` by settling the intent `id`, and no other changes.
record Settles (id : ℕ) (is is' : List OrderIntent) : Type 0 where
  others : (j : ℕ) → eqb j id ≡ false → find_intent j is' ≡ find_intent j is
  settled : (i : OrderIntent) → find_intent id is' ≡ some i → in_doubt i.status ≡ false

-- Why an intent may stay in doubt: several orders of the broker carry its tag, or one does, and the
-- broker has not finished with it.
pub data Awaits (grouped : Dict Tag (List BrokerOrder)) (i : OrderIntent) : Type 0 where
  several :
      (a b : BrokerOrder) (rest : List BrokerOrder)
      → matches grouped i.broker_tag ≡ a ∷ b ∷ rest
      → Awaits grouped i
  in_flight :
      (bo : BrokerOrder)
      → matches grouped i.broker_tag ≡ bo ∷ []
      → is_terminal_status bo.status ≡ false
      → Awaits grouped i

some-injective : (i j : OrderIntent) → some i ≡ some j → i ≡ j
some-injective i j e = cc

find_intent-id :
    (id : ℕ) (is : List OrderIntent) (i : OrderIntent) → find_intent id is ≡ some i → i.id ≡ id
unfolding find_intent
find_intent-id id [] i e = cc
find_intent-id id (x ∷ is) i e = elim (Bool-cases (eqb x.id id)) [
  | inl here ↦
      let same : x ≡ i = some-injective x i (rw here at e) in rw (← same) ((eqb_iff x.id id).0 here)
  | inr away ↦ find_intent-id id is i (rw away at e)
]

-- How one intent is left.
data Left (id : ℕ) (awaits : Type 0) (is is' : List OrderIntent) : Type 0 where
  settles : Settles id is is' → Left id awaits is is'
  stays : awaits → is' ≡ is → Left id awaits is is'

update_intent-Settles :
    (id : ℕ) (status : IntentStatus) (now is : List OrderIntent)
    → in_doubt status ≡ false
    → ((j : ℕ) → eqb j id ≡ false → find_intent j now ≡ find_intent j is)
    → Settles id is (update_intent id (λ i. record i { status = status }) now)
update_intent-Settles id status now is final before = record {
  others = λ j other. find_intent-update id status j now ∙ rw other (before j other);
  settled = λ i e.
      let same : eqb id id ≡ true = ground arith in
      let e' : restatus id status (find_intent id now) ≡ some i =
        rw same at (sym (find_intent-update id status id now) ∙ e) in
      rw (restatus-status id status (find_intent id now) i e') final;
}

mark_intent-Settles :
    (id : ℕ) (status : IntentStatus) (d : Database)
    → in_doubt status ≡ false
    → Settles id d.intents (mark_intent id status d).intents
unfolding mark_intent
mark_intent-Settles id status d final =
    update_intent-Settles id status d.intents d.intents final (λ j other. refl)

apply_fill-Settles :
    (i : OrderIntent) (order : Order) (bo : BrokerOrder) (now : ℕ) (d : Database)
    → Settles i.id d.intents (apply_fill i order bo now d).intents
unfolding apply_fill in_doubt
apply_fill-Settles i order bo now d =
    update_intent-Settles i.id IntentStatus.confirmed _ d.intents refl
      (λ j other. find_intent-update i.id IntentStatus.placed j d.intents ∙ rw other refl)

module _ (i : OrderIntent) (order : Order) (bo : BrokerOrder) (now : ℕ) (d : Database) where
  resolve_complete-Settles : Settles i.id d.intents (resolve_complete i order bo now d).1.intents
  unfolding resolve_complete record_break apply_fill
  resolve_complete-Settles = elim (Bool-cases (eqb bo.filled_quantity i.quantity)) [
    | inl full ↦ rw full (apply_fill-Settles i order bo now d)
    | inr part ↦ rw part (apply_fill-Settles i order bo now d)
  ]

  resolve_dead-Settles : Settles i.id d.intents (resolve_dead i order bo now d).1.intents
  unfolding resolve_dead in_doubt mark_intent record_break apply_fill
  resolve_dead-Settles = elim (Bool-cases (ltb 0 bo.filled_quantity)) [
    | inl part ↦ rw part (apply_fill-Settles i order bo now d)
    | inr none_filled ↦
        rw none_filled (
          update_intent-Settles i.id IntentStatus.failed d.intents d.intents refl (λ j other. refl))
  ]

  by_status-Left :
      (status : OrderStatus) (created : Bool)
      → Left i.id
          (is_terminal_status status ≡ false)
          d.intents
          (by_status status i order created bo now d).1.intents
  unfolding by_status is_terminal_status
  by_status-Left OrderStatus.complete created = settles resolve_complete-Settles
  by_status-Left OrderStatus.rejected created = settles resolve_dead-Settles
  by_status-Left OrderStatus.cancelled created = settles resolve_dead-Settles
  by_status-Left OrderStatus.error created = settles resolve_dead-Settles
  by_status-Left OrderStatus.pending created = stays refl refl
  by_status-Left OrderStatus.opened created = stays refl refl

or_create-intents :
    (o : Option Order) (i : OrderIntent) (d : Database) → (or_create o i d).1.intents ≡ d.intents
unfolding or_create
or_create-intents none i d = refl
or_create-intents (some order) i d = refl

resolve_intent_against_order-Left :
    (i : OrderIntent) (bo : BrokerOrder) (now : ℕ) (d : Database)
    → Left i.id
        (is_terminal_status bo.status ≡ false)
        d.intents
        (resolve_intent_against_order i bo now d).1.intents
unfolding resolve_intent_against_order locate_order
resolve_intent_against_order-Left i bo now d =
    let sought =
      first_found (get_by_broker_order_id bo.broker_order_id d.orders)
        (get_by_broker_tag i.broker_tag d.orders) in
    located-Left (or_create sought i d) (or_create-intents sought i d)
  where
    located-Left :
        (l : (Order × Bool) × Database)
        → l.1.intents ≡ d.intents
        → Left i.id
            (is_terminal_status bo.status ≡ false)
            d.intents
            (by_status bo.status i (acknowledged l.0.0 bo now) l.0.1 bo now (record l.1 {
              orders = replace l.0.0.id (acknowledged l.0.0 bo now) l.1.orders;
            })).1.intents
    located-Left l same =
        subst
          (λ is.
            Left i.id (is_terminal_status bo.status ≡ false) is
              (by_status bo.status i (acknowledged l.0.0 bo now) l.0.1 bo now (record l.1 {
                orders = replace l.0.0.id (acknowledged l.0.0 bo now) l.1.orders;
              })).1.intents)
          same
          (by_status-Left i (acknowledged l.0.0 bo now) bo now
            (record l.1 { orders = replace l.0.0.id (acknowledged l.0.0 bo now) l.1.orders })
            bo.status l.0.1)

freeze_found-intents :
    (id : ℕ) (o : Option InstanceStatus) (d : Database) → (freeze_found id o d).intents ≡ d.intents
unfolding freeze_found
freeze_found-intents id none d = refl
freeze_found-intents id (some _) d = refl

error_and_freeze-intents :
    (p : Position) (reason : String) (d : Database)
    → (error_and_freeze p reason d).intents ≡ d.intents
unfolding error_and_freeze move_position
error_and_freeze-intents p reason d = freeze_found-intents p.strategy_instance_id _ _

error_position_found-intents :
    (o : Option Position) (reason : String) (d : Database)
    → (error_position_found o reason d).intents ≡ d.intents
unfolding error_position_found
error_position_found-intents none reason d = refl
error_position_found-intents (some p) reason d =
    elim (Bool-cases (p.state == PositionState.closed || p.state == PositionState.error)) [
      | inl over ↦ rw over
      | inr live ↦ rw live (error_and_freeze-intents p reason d)
    ]

error_position_of_intent-intents :
    (o : Option Trade) (reason : String) (d : Database)
    → (error_position_of_trade o reason d).intents ≡ d.intents
unfolding error_position_of_trade
error_position_of_intent-intents none reason d = refl
error_position_of_intent-intents (some t) reason d =
    error_position_found-intents (find_position t.position_id d.positions) reason d

list_in_doubt-lists :
    (is : List OrderIntent) (j : ℕ) (i : OrderIntent)
    → find_intent j is ≡ some i
    → in_doubt i.status ≡ true
    → any (λ k. eqb j k) (list_in_doubt is) ≡ true
unfolding find_intent list_in_doubt
list_in_doubt-lists [] j i e doubt = cc
list_in_doubt-lists (x ∷ is) j i e doubt = elim (Bool-cases (eqb x.id j)) [
  | inl here ↦
      let same : x ≡ i = some-injective x i (rw here at e) in
      let doubt' : in_doubt x.status ≡ true = rw same doubt in
      rw doubt' (ground (arith, eqb_iff x.id j, eqb_iff j x.id))
  | inr away ↦ elim (Bool-cases (in_doubt x.status)) [
    | inl among ↦ rw among (ground (arith, list_in_doubt-lists is j i (rw away at e) doubt))
    | inr decided ↦ rw decided (list_in_doubt-lists is j i (rw away at e) doubt)
  ]
]

module _ (grouped : Dict Tag (List BrokerOrder)) (now : ℕ) where
  resolve_by_matches-Left :
      (i : OrderIntent) (found : List BrokerOrder) (d : Database)
      → matches grouped i.broker_tag ≡ found
      → Left i.id (Awaits grouped i) d.intents (resolve_by_matches i found now d).1.intents
  unfolding resolve_by_matches error_position_of_intent record_break in_doubt
  resolve_by_matches-Left i [] d e = settles (mark_intent-Settles i.id IntentStatus.failed d refl)
  resolve_by_matches-Left i (bo ∷ []) d e = elim (resolve_intent_against_order-Left i bo now d) [
    | settles s ↦ settles s
    | stays flying same ↦ stays (in_flight bo e flying) same
  ]
  resolve_by_matches-Left i (a ∷ b ∷ rest) d e =
      stays (several a b rest e)
        (error_position_of_intent-intents (find_trade i.trade_id d.trades) _ _)

  -- The intents that are in doubt after a step were in doubt before it, and the one that the step
  -- is about awaits something.
  Resolved : ℕ → Database → Database → Type 0
  Resolved id d d' =
      (j : ℕ) (i : OrderIntent)
      → find_intent j d'.intents ≡ some i
      → in_doubt i.status ≡ true
      → (find_intent j d.intents ≡ some i) × (eqb j id ≡ true → Awaits grouped i)

  Left-Resolved :
      (i : OrderIntent) (d d' : Database)
      → find_intent i.id d.intents ≡ some i
      → Left i.id (Awaits grouped i) d.intents d'.intents
      → Resolved i.id d d'
  unfolding Resolved
  Left-Resolved i d d' found (stays awaits same) j x e doubt = (
    rw same at e,
    λ here.
        let is_id : j ≡ i.id = (eqb_iff j i.id).0 here in
        let it : find_intent j d.intents ≡ some i = rw is_id found in
        let e' : find_intent j d.intents ≡ some x = rw same at e in
        subst (Awaits grouped) (some-injective i x (sym it ∙ e')) awaits,
  )
  Left-Resolved i d d' found (settles s) j x e doubt = elim (Bool-cases (eqb j i.id)) [
    | inl here ↦
        let is_id : j ≡ i.id = (eqb_iff j i.id).0 here in
        let e' : find_intent i.id d'.intents ≡ some x = rw (← is_id) e in
        let settled = s.settled x e' in absurd (ground arith)
    | inr other ↦ (sym (s.others j other) ∙ e, λ here. cc)
  ]

  missing-Resolved : (id : ℕ) (d : Database) → find_intent id d.intents ≡ none → Resolved id d d
  unfolding Resolved
  missing-Resolved id d e j x found doubt = (
    found,
    λ here.
        let is_id : j ≡ id = (eqb_iff j id).0 here in
        let gone : find_intent j d.intents ≡ none = rw is_id e in cc,
  )

  decided-Resolved :
      (i : OrderIntent) (d : Database)
      → find_intent i.id d.intents ≡ some i
      → in_doubt i.status ≡ false
      → Resolved i.id d d
  unfolding Resolved
  decided-Resolved i d e decided j x found doubt = (
    found,
    λ here.
        let is_id : j ≡ i.id = (eqb_iff j i.id).0 here in
        let it : find_intent j d.intents ≡ some i = rw is_id e in
        let same : i ≡ x = some-injective i x (sym it ∙ found) in
        let doubt' : in_doubt i.status ≡ true = rw same doubt in cc,
  )

  resolve_found-Resolved :
      (id : ℕ) (o : Option OrderIntent) (d : Database)
      → find_intent id d.intents ≡ o
      → Resolved id d (resolve_found id o grouped now d).1
  unfolding resolve_found
  resolve_found-Resolved id none d e = missing-Resolved id d e
  resolve_found-Resolved id (some i) d e =
      let is_id : i.id ≡ id = find_intent-id id d.intents i e in
      let it : find_intent i.id d.intents ≡ some i =
        subst (λ k. find_intent k d.intents ≡ some i) (sym is_id) e in
      subst (λ k. Resolved k d (resolve_found id (some i) grouped now d).1) is_id
        (elim (Bool-cases (in_doubt i.status)) [
          | inl doubt ↦ rw doubt (
              Left-Resolved i d _ it
                (resolve_by_matches-Left i (matches grouped i.broker_tag) d refl))
          | inr decided ↦ rw decided (decided-Resolved i d it decided)
        ])

  reconcile_one_intent-Resolved :
      (id : ℕ) (d : Database) → Resolved id d (reconcile_one_intent grouped now id d).1
  unfolding reconcile_one_intent
  reconcile_one_intent-Resolved id d = resolve_found-Resolved id (find_intent id d.intents) d refl

  -- Every intent in doubt awaits something, or is still to be looked at.
  AwaitsOr : List ℕ → Database → Type 0
  AwaitsOr ids d =
      (j : ℕ) (i : OrderIntent)
      → find_intent j d.intents ≡ some i
      → in_doubt i.status ≡ true
      → Awaits grouped i ⊎ (any (λ k. eqb j k) ids ≡ true)

  step-AwaitsOr :
      (id : ℕ) (ids : List ℕ) (d : Database)
      → AwaitsOr (id ∷ ids) d
      → AwaitsOr ids (reconcile_one_intent grouped now id d).1
  unfolding AwaitsOr Resolved
  step-AwaitsOr id ids d before j i e doubt =
      let (was, here) = reconcile_one_intent-Resolved id d j i e doubt in
      elim (before j i was doubt) [
        | inl awaits ↦ inl awaits
        | inr among ↦ elim (Bool-cases (eqb j id)) [
          | inl same ↦ inl (here same)
          | inr other ↦ inr (rw other at among)
        ]
      ]

  each-AwaitsOr :
      (ids : List ℕ) (d : Database)
      → AwaitsOr ids d
      → AwaitsOr [] (reconcile_each grouped now ids d).1
  unfolding reconcile_each
  each-AwaitsOr [] d before = before
  each-AwaitsOr (id ∷ ids) d before = each-AwaitsOr ids _ (step-AwaitsOr id ids d before)

  -- After the intents have been looked at, one that is still in doubt has several orders of the
  -- broker under its tag, or exactly one, with which the broker has not finished. In particular none
  -- whose tag the broker does not know stays in doubt.
  pub reconcile_intents-Awaits :
      (d : Database) (j : ℕ) (i : OrderIntent)
      → find_intent j (reconcile_intents grouped now d).1.intents ≡ some i
      → in_doubt i.status ≡ true
      → Awaits grouped i
  unfolding reconcile_intents AwaitsOr
  reconcile_intents-Awaits d j i e doubt =
      elim (each-AwaitsOr (list_in_doubt d.intents) d
        (λ k x f g. inr (list_in_doubt-lists d.intents k x f g)) j i e doubt) [
          | inl awaits ↦ awaits
          | inr among ↦ cc
        ]
