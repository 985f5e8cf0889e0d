-- ===== src/Simulation/Matching/Loop.antt =====
-- What every round of the matching keeps of the orders and the positions, the whole matching keeps.
use trading_project.Base.{
  ℕ, zero, suc, Bool-cases, inl, inr, String, Bool, true, false, Option, none, some, List, [], ◌∷◌,
  ◌++◌, if◌then◌else◌,
}
use trading_project.Base.Dict.{Dict}
use trading_project.Broker.{BrokerOrder}
use trading_project.Simulation.{SimOrder, Positions, Env}
use trading_project.Simulation.Matching.{
  SimulationBroker, dispatch, dispatch_all, resolve_orders, resolve_due_orders, more, pump_loop,
  rounds, pump,
}

-- A fact about a state, where there is one.
abbrev pub Kept : (SimulationBroker → Type 0) → Option SimulationBroker → Type 0
Kept J none = Unit
Kept J (some s) = J s

-- What a dispatch and a round keep.
pub record RoundsKeep (env : Env) (J : SimulationBroker → Type 0) : Type 0 where
  pub dispatched :
      (s : SimulationBroker) (us : List BrokerOrder) → J s → J (record s { dispatched = us })
  pub round :
      (force : Bool) (s : SimulationBroker)
      → J s
      → let r = resolve_orders env force s.orders s.positions in
        J (record s { orders = r.orders; positions = r.positions })

module _ (env : Env) (J : SimulationBroker → Type 0) (keep : RoundsKeep env J) where
  pub dispatch-Kept : (u : BrokerOrder) (s : SimulationBroker) → J s → J (dispatch env u s)
  unfolding dispatch
  dispatch-Kept u s h = by_connection s.ws_connected
    where
      by_connection :
          (connected : Bool)
          → J (if connected then record s { dispatched = s.dispatched ++ u ∷ [] } else s)
      by_connection true = keep.dispatched s _ h
      by_connection false = h

  dispatch_all-Kept :
      (us : List BrokerOrder) (s : SimulationBroker) → J s → J (dispatch_all env us s)
  unfolding dispatch_all
  dispatch_all-Kept [] s h = h
  dispatch_all-Kept (u ∷ us) s h = dispatch_all-Kept us (dispatch env u s) (dispatch-Kept u s h)

  resolved-Kept : (force : Bool) (s : SimulationBroker) → J s → J (resolve_due_orders env force s).1
  unfolding resolve_due_orders
  resolved-Kept force s h =
      let r = resolve_orders env force s.orders s.positions in
      dispatch_all-Kept r.updates (record s { orders = r.orders; positions = r.positions })
        (keep.round force s h)

  more-Kept :
      (updates : List BrokerOrder) (rest : Option SimulationBroker) (s : SimulationBroker)
      → Kept J rest
      → J s
      → Kept J (more env updates rest s)
  more-Kept [] rest s hr hs = hs
  more-Kept (u ∷ us) rest s hr hs = hr

  loop-Kept : (n : ℕ) (s : SimulationBroker) → J s → Kept J (pump_loop env n s)
  unfolding pump_loop
  loop-Kept zero s h = tt
  loop-Kept (suc n) s h =
      let s' = (resolve_due_orders env true s).1 in
      let h' = resolved-Kept true s h in
      more-Kept (resolve_due_orders env true s).0 (pump_loop env n s') s' (loop-Kept n s' h') h'

  pub pump-Kept : (s : SimulationBroker) → J s → Kept J (pump env s)
  unfolding pump
  pump-Kept s h =
      by_mode env.synchronous _ _ (loop-Kept (suc (rounds env s.orders)) s h)
        (resolved-Kept false s h)
    where
      by_mode :
          (synchronous : Bool) (looped : Option SimulationBroker) (once : SimulationBroker)
          → Kept J looped
          → J once
          → Kept J (if synchronous then looped else some once)
      by_mode true looped once hl ho = hl
      by_mode false looped once hl ho = ho

-- A fact about the orders and the positions alone.
abbrev pub After : (Dict String SimOrder → Positions → Type 0) → Option SimulationBroker → Type 0
After I o = Kept (λ s. I s.orders s.positions) o

module _ (env : Env) (I : Dict String SimOrder → Positions → Type 0)
    (round : (force : Bool) (d : Dict String SimOrder) (positions : Positions)
      → I d positions
      → let r = resolve_orders env force d positions in I r.orders r.positions) where
  rounds_keep : RoundsKeep env (λ s. I s.orders s.positions)
  rounds_keep = record {
    dispatched = λ s us h. h;
    round = λ force s h. round force s.orders s.positions h;
  }

  pub pump-After : (s : SimulationBroker) → I s.orders s.positions → After I (pump env s)
  pump-After s h = pump-Kept env _ rounds_keep s h

pub dispatch-Holds :
    (env : Env) (I : Dict String SimOrder → Positions → Type 0) (u : BrokerOrder)
    (s : SimulationBroker)
    → I s.orders s.positions
    → let t = dispatch env u s in I t.orders t.positions
unfolding dispatch
dispatch-Holds env I u s h = elim (Bool-cases s.ws_connected) [
  | inl on ↦ rw on h
  | inr off ↦ rw off h
]
