-- ===== src/Reconciliation/Repairs.antt =====
-- reconciliation_engine.py: what every repair keeps to.
use mathlib.Core.Path.{subst}
use trading_project.Base.{
  ℕ, ◌+◌, ◌≡◌, inl, inr, refl, ap, ◌∙◌, sym, String, Bool, true, false, Option, none, some, List,
  [], ◌∷◌, ◌++◌, ◌==◌, ◌||◌, length, length-append, count-append, eqb, eqb_iff, if◌then◌else◌,
  Bool-cases, arith, All, All-append,
}
use trading_project.Enums.{PositionState, position_state_eq, InstanceStatus, StateTransitionActor}
use trading_project.Models.{Position, PositionStateTransition}
use trading_project.Position.{is_transition_allowed_for_actor}
use trading_project.Reconciliation.{
  Database, Break, record_break, find_position, update_position, move_position, freeze_found,
  error_and_freeze, ReconciliationItem, breaks_recorded,
}

-- Positions that reconciliation leaves to others.
abbrev pub is_done : PositionState → Bool
is_done s = s == PositionState.closed || s == PositionState.error

-- A row of the audit trail that the state machine allows its actor.
abbrev pub IsAllowed : PositionStateTransition → Type 0
IsAllowed row = is_transition_allowed_for_actor row.from_state row.to_state row.actor ≡ true

-- The repairs between two states of the tables record `k` breaks, add to the audit trail only rows
-- that the state machine allows, and leave the positions that are CLOSED or in ERROR as they are.
pub record Repairs (k : ℕ) (d d' : Database) : Type 0 where
  pub counted : length d'.breaks ≡ length d.breaks + k
  pub audited : All IsAllowed d.audit → All IsAllowed d'.audit
  pub left_alone :
      (j : ℕ) (p : Position)
      → find_position j d.positions ≡ some p
      → is_done p.state ≡ true
      → find_position j d'.positions ≡ some p

pub Repairs-refl : (d : Database) → Repairs 0 d d
Repairs-refl d = record { counted = omega arith; audited = λ h. h; left_alone = λ j p e over. e }

pub Repairs-trans :
    {k l : ℕ} {d e f : Database} → Repairs k d e → Repairs l e f → Repairs (k + l) d f
Repairs-trans r s = record {
  counted = omega (arith, r.counted, s.counted);
  audited = λ h. s.audited (r.audited h);
  left_alone = λ j p e over. s.left_alone j p (r.left_alone j p e over) over;
}

pub Repairs-eq : {k l : ℕ} {d e : Database} → k ≡ l → Repairs k d e → Repairs l d e
Repairs-eq {d} {e} same r = subst (λ n. Repairs n d e) same r

pub Repairs-then : {k : ℕ} {d e f : Database} → Repairs 0 d e → Repairs k e f → Repairs k d f
Repairs-then r s = Repairs-eq (omega arith) (Repairs-trans r s)

-- what an item counts for
abbrev pub breaks_of : ReconciliationItem → ℕ
breaks_of item = if item.break_recorded then 1 else 0

breaks_recorded-cons :
    (item : ReconciliationItem) (items : List ReconciliationItem)
    → breaks_of item + breaks_recorded items ≡ breaks_recorded (item ∷ items)
unfolding breaks_recorded
breaks_recorded-cons item items = ground arith

-- an item in front of a list of them
pub Repairs-cons :
    (item : ReconciliationItem) (items : List ReconciliationItem) {d e f : Database}
    → Repairs (breaks_of item) d e
    → Repairs (breaks_recorded items) e f
    → Repairs (breaks_recorded (item ∷ items)) d f
Repairs-cons item items r s = Repairs-eq (breaks_recorded-cons item items) (Repairs-trans r s)

breaks_recorded-append :
    (xs ys : List ReconciliationItem)
    → breaks_recorded xs + breaks_recorded ys ≡ breaks_recorded (xs ++ ys)
unfolding breaks_recorded
breaks_recorded-append xs ys = sym (count-append _ xs ys)

pub Repairs-append :
    (xs ys : List ReconciliationItem) {d e f : Database}
    → Repairs (breaks_recorded xs) d e
    → Repairs (breaks_recorded ys) e f
    → Repairs (breaks_recorded (xs ++ ys)) d f
Repairs-append xs ys r s = Repairs-eq (breaks_recorded-append xs ys) (Repairs-trans r s)

-- a change of the other tables
pub Repairs-elsewhere :
    (d d' : Database)
    → d'.breaks ≡ d.breaks
    → d'.audit ≡ d.audit
    → d'.positions ≡ d.positions
    → Repairs 0 d d'
Repairs-elsewhere d d' breaks audit positions = record {
  counted = omega (arith, ap length breaks);
  audited = λ h. subst (All IsAllowed) (sym audit) h;
  left_alone = λ j p e over. subst (λ ps. find_position j ps ≡ some p) (sym positions) e;
}

pub record_break-Repairs : (b : Break) (d : Database) → Repairs 1 d (record_break b d)
unfolding record_break
record_break-Repairs b d = record {
  counted = omega (arith, length-append d.breaks (b ∷ []));
  audited = λ h. h;
  left_alone = λ j p e over. e;
}

find_position-update :
    (new : Position) (id j : ℕ) (ps : List Position)
    → new.id ≡ id
    → eqb j id ≡ false
    → find_position j (update_position id new ps) ≡ find_position j ps
unfolding find_position update_position
find_position-update new id j [] same other = refl
find_position-update new id j (p ∷ ps) same other =
    ground (arith, find_position-update new id j ps same other)

-- Writing a row that was not done leaves the rows that are.
pub update_position-left :
    (new old : Position) (id : ℕ) (ps : List Position)
    → new.id ≡ id
    → find_position id ps ≡ some old
    → is_done old.state ≡ false
    → (j : ℕ) (p : Position) → find_position j ps ≡ some p
    → is_done p.state ≡ true
    → find_position j (update_position id new ps) ≡ some p
update_position-left new old id ps same found live j p e over = elim (Bool-cases (eqb j id)) [
  | inl here ↦
      let it : find_position id ps ≡ some p =
        subst (λ k. find_position k ps ≡ some p) ((eqb_iff j id).0 here) e in
      let is_old : old ≡ p = some-injective old p (sym found ∙ it) in
      let live' : is_done p.state ≡ false = subst (λ q. is_done q.state ≡ false) is_old live in
      absurd (ground arith)
  | inr other ↦ find_position-update new id j ps same other ∙ e
]
  where
    some-injective : (a b : Position) → some a ≡ some b → a ≡ b
    some-injective a b s = cc

module _ (p old : Position) (d : Database) (found : find_position p.id d.positions ≡ some old)
    (live : is_done old.state ≡ false) where
  pub move_position-Repairs :
      (to_state : PositionState) (reason : String)
      → is_transition_allowed_for_actor p.state to_state StateTransitionActor.recovery ≡ true
      → Repairs 0 d (move_position p to_state reason d)
  unfolding move_position
  move_position-Repairs to_state reason allowed = record {
    counted = omega arith;
    audited = λ h. All-append IsAllowed d.audit _ h (allowed, tt);
    left_alone =
        update_position-left (record p { state = to_state }) old p.id d.positions refl found live;
  }

freeze_found-Repairs :
    (id : ℕ) (o : Option InstanceStatus) (d : Database) → Repairs 0 d (freeze_found id o d)
unfolding freeze_found
freeze_found-Repairs id none d = Repairs-refl d
freeze_found-Repairs id (some _) d = Repairs-elsewhere d _ refl refl refl

error_allowed :
    (s : PositionState)
    → is_done s ≡ false
    → is_transition_allowed_for_actor s PositionState.error StateTransitionActor.recovery ≡ true
unfolding is_transition_allowed_for_actor
error_allowed PositionState.closed live = cc
error_allowed PositionState.error live = cc
error_allowed PositionState.idle live = refl
error_allowed PositionState.entry_pending live = refl
error_allowed PositionState.opened live = refl
error_allowed PositionState.exit_pending live = refl

pub error_and_freeze-Repairs :
    (p : Position) (reason : String) (d : Database)
    → find_position p.id d.positions ≡ some p
    → is_done p.state ≡ false
    → Repairs 0 d (error_and_freeze p reason d)
unfolding error_and_freeze
error_and_freeze-Repairs p reason d found live =
    Repairs-trans
      (move_position-Repairs (record p { error_message = some reason; needs_reconciliation = true })
        p d found live PositionState.error reason (error_allowed p.state live))
      (freeze_found-Repairs p.strategy_instance_id _ _)

pub find_position-id :
    (id : ℕ) (ps : List Position) (p : Position) → find_position id ps ≡ some p → p.id ≡ id
unfolding find_position
find_position-id id [] p e = cc
find_position-id id (x ∷ ps) p e = elim (Bool-cases (eqb x.id id)) [
  | inl here ↦
      let same : x ≡ p = some-injective x p (rw here at e) in rw (← same) ((eqb_iff x.id id).0 here)
  | inr away ↦ find_position-id id ps p (rw away at e)
]
  where
    some-injective : (a b : Position) → some a ≡ some b → a ≡ b
    some-injective a b s = cc

-- What a run leads to, by the breaks that it records: every repair does, and two of them after one
-- another do. The repairs of the engine keep to more than one such relation.
pub record IsTrace (R : ℕ → Database → Database → Type 0) : Type 0 where
  pub of_repairs : {k : ℕ} {d d' : Database} → Repairs k d d' → R k d d'
  pub trans : {k l : ℕ} {d e f : Database} → R k d e → R l e f → R (k + l) d f

module _ {R : ℕ → Database → Database → Type 0} (laws : IsTrace R) where
  pub trace-cons :
      (item : ReconciliationItem) (items : List ReconciliationItem) {d e f : Database}
      → R (breaks_of item) d e
      → R (breaks_recorded items) e f
      → R (breaks_recorded (item ∷ items)) d f
  trace-cons item items {d} {f} r s =
      subst (λ n. R n d f) (breaks_recorded-cons item items) (laws.trans r s)

  pub trace-append :
      (xs ys : List ReconciliationItem) {d e f : Database}
      → R (breaks_recorded xs) d e
      → R (breaks_recorded ys) e f
      → R (breaks_recorded (xs ++ ys)) d f
  trace-append xs ys {d} {f} r s =
      subst (λ n. R n d f) (breaks_recorded-append xs ys) (laws.trans r s)

-- as many breaks are recorded
abbrev pub Counted : ℕ → Database → Database → Type 0
Counted k d d' = length d'.breaks ≡ length d.breaks + k

pub Counted-IsTrace : IsTrace Counted
Counted-IsTrace = record { of_repairs = λ r. r.counted; trans = λ r s. omega (arith, r, s) }

-- the audit trail stays allowed, and what is done stays as it is, whatever is recorded
pub record Orderly (k : ℕ) (d d' : Database) : Type 0 where
  pub audited : All IsAllowed d.audit → All IsAllowed d'.audit
  pub left_alone :
      (j : ℕ) (p : Position)
      → find_position j d.positions ≡ some p
      → is_done p.state ≡ true
      → find_position j d'.positions ≡ some p

pub Orderly-IsTrace : IsTrace Orderly
Orderly-IsTrace = record {
  of_repairs = λ r. record { audited = r.audited; left_alone = r.left_alone };
  trans = λ r s. record {
    audited = λ h. s.audited (r.audited h);
    left_alone = λ j p e over. s.left_alone j p (r.left_alone j p e over) over;
  };
}
