-- ===== src/EntryMutex/Exclusion.antt =====
-- core/entry_in_flight_mutex.py: mutual exclusion, and entry again after a release.
use binance_future_bot.Base.{
  ℕ, ◌≡◌, refl, ap, ◌∙◌, sym, subst, true, false, not, some, [], ◌∷◌, arith, mem, mem-filter_eq,
  Distinct, ◌=?◌, text_eq, if-both, Bool-cases, Option-cases, inl, inr,
}
use binance_future_bot.Base.Text.{Text, upper}
use binance_future_bot.Base.Dict.{
  Dict, lookup, delete, keys, insert-Distinct, delete-Distinct, mem-keys-delete_self,
  mem-keys-delete_other, lookup-eq-none,
}
use binance_future_bot.Settings.{Settings}
use binance_future_bot.EntryMutex.{
  World, claimed, is_stale, purge_stale, enter, enter_named, leave, release, clear_entry_in_flight,
  is_symbol_entry_in_flight,
}
use binance_future_bot.EntryMutex.Steps.{Reach, begin, by_enter, by_leave, by_clear, by_ask}

-- One body for each lock that is taken, and one claim for each symbol.
record Safe (w : World) : Type 0 where
  bodies : Distinct (keys w.bodies)
  locks : (s : Text) → mem s (keys w.bodies) ≡ mem s w.locked
  claims : Distinct (keys w.active)

purge_stale-Distinct :
    (s : Settings) (now : ℕ) (name : Text) (active : Dict Text ℕ)
    → Distinct (keys active)
    → Distinct (keys (purge_stale s now name active))
unfolding purge_stale
purge_stale-Distinct s now name active d = elim (Option-cases (lookup name active)) [
  | inl missing ↦ rw (missing, purge_stale) d
  | inr (started, found) ↦
      rw (found, purge_stale)
        (if-both (λ (a : Dict Text ℕ). Distinct (keys a)) (is_stale s now started)
          (delete-Distinct name active d) d)
]

enter_named-Safe :
    (s : Settings) (now : ℕ) (name : Text) (w : World) → Safe w → Safe (enter_named s now name w).0
unfolding enter_named
enter_named-Safe s now [] w k = k
enter_named-Safe s now (c ∷ rest) w k =
    let name = c ∷ rest in
    let active' = purge_stale s now name w.active in
    let pure = purge_stale-Distinct s now name w.active k.claims in
    elim (Bool-cases (mem name w.locked)) [
      | inl taken ↦ rw (taken, enter_named) k
      | inr free ↦ elim (Bool-cases (mem name (keys active'))) [
        | inl there ↦
            rw (free, there, enter_named)
              (record {
                bodies = (k.locks name ∙ free, k.bodies);
                locks = λ t. ground (arith, k.locks t);
                claims = pure;
              })
        | inr new ↦
            rw (free, new, enter_named)
              (record {
                bodies = (k.locks name ∙ free, k.bodies);
                locks = λ t. ground (arith, k.locks t);
                claims = insert-Distinct name now active' pure;
              })
      ]
    ]

leave-Safe : (name : Text) (w : World) → Safe w → Safe (leave name w)
unfolding leave
leave-Safe name w k = elim (Option-cases (lookup name w.bodies)) [
  | inl missing ↦ rw (missing, leave) k
  | inr (mine, found) ↦
      rw (found, leave)
        (record {
          bodies = delete-Distinct name w.bodies k.bodies;
          locks = λ s. left s;
          claims =
              if-both (λ (a : Dict Text ℕ). Distinct (keys a)) mine
                (delete-Distinct name w.active k.claims) k.claims;
        })
]
  where
    left : (s : Text) → mem s (keys (delete name w.bodies)) ≡ mem s (release name w.locked)
    left s =
        let rest = mem-filter_eq (λ x. not (x =? name)) s w.locked in
        let same_locks = k.locks s in
        elim (Bool-cases (name =? s)) [
          | inl same ↦
              let at : mem name (keys (delete name w.bodies))
                  ≡ mem s (keys (delete name w.bodies)) =
                ap (λ y. mem y (keys (delete name w.bodies))) ((text_eq.beq_iff name s).0 same) in
              ground (
                arith,
                mem-keys-delete_self name w.bodies k.bodies,
                text_eq.beq_iff name s,
                text_eq.beq_iff s name,
              )
          | inr other ↦ ground (
            arith,
            mem-keys-delete_other name s w.bodies other,
            text_eq.beq_iff name s,
            text_eq.beq_iff s name,
          )
        ]

cleared : (name : Text) (w : World) → Safe w → Safe (record w { active = delete name w.active })
cleared name w k = record {
  bodies = k.bodies;
  locks = k.locks;
  claims = delete-Distinct name w.active k.claims;
}

ask-Safe :
    (s : Settings) (now : ℕ) (symbol : Text) (w : World)
    → Safe w
    → Safe (is_symbol_entry_in_flight s now symbol w).0
unfolding is_symbol_entry_in_flight
ask-Safe s now symbol w k = elim (Option-cases (lookup (upper symbol) w.active)) [
  | inl missing ↦ rw (missing, is_symbol_entry_in_flight) k
  | inr (started, found) ↦ elim (Bool-cases (is_stale s now started)) [
    | inr young ↦ rw (found, young, is_symbol_entry_in_flight) k
    | inl stale ↦ rw (found, stale, is_symbol_entry_in_flight) (cleared (upper symbol) w k)
  ]
]

Reach-Safe : {s : Settings} {w : World} → Reach s w → Safe w
unfolding enter clear_entry_in_flight
Reach-Safe begin = record { bodies = tt; locks = λ t. refl; claims = tt }
Reach-Safe {s} (by_enter {w} now symbol r) = enter_named-Safe s now (upper symbol) w (Reach-Safe r)
Reach-Safe (by_leave {w} name r) = leave-Safe name w (Reach-Safe r)
Reach-Safe (by_clear {w} symbol r) = cleared (upper symbol) w (Reach-Safe r)
Reach-Safe {s} (by_ask {w} now symbol r) = ask-Safe s now symbol w (Reach-Safe r)

-- However the threads interleave, and also when a claim has expired or was cleared while its body
-- runs: no two bodies run under the lock of the same symbol.
pub one_body : (s : Settings) (w : World) → Reach s w → Distinct (keys w.bodies)
one_body s w r = (Reach-Safe r).bodies

enter_named-claimed :
    (s : Settings) (now c : ℕ) (rest : Text) (w : World)
    → mem (c ∷ rest) w.locked ≡ false
    → mem (c ∷ rest) (keys w.active) ≡ false
    → (enter_named s now (c ∷ rest) w).1 ≡ claimed
unfolding enter_named purge_stale
enter_named-claimed s now c rest w free new =
    rw (lookup-eq-none (c ∷ rest) w.active new, purge_stale, free, enter_named, new) refl

-- In every reachable state: when a body that had claimed a symbol ends, the next call for that
-- symbol claims it again.
leave-enter :
    (s : Settings) (now c : ℕ) (w : World) (symbol rest : Text)
    → Reach s w
    → upper symbol ≡ c ∷ rest
    → lookup (upper symbol) w.bodies ≡ some true
    → (enter s now symbol (leave (upper symbol) w)).1 ≡ claimed
unfolding enter leave
leave-enter s now c w symbol rest r named found =
    let k = Reach-Safe r in
    let after = leave-Safe (upper symbol) w k in
    let name = upper symbol in
    let gone : mem name (leave name w).locked ≡ false =
      sym (after.locks name) ∙ rw (found, leave) (mem-keys-delete_self name w.bodies k.bodies) in
    let unclaimed : mem name (keys (leave name w).active) ≡ false =
      rw (found, leave) (mem-keys-delete_self name w.active k.claims) in
    subst (λ n. (enter_named s now n (leave name w)).1 ≡ claimed) (sym named)
      (enter_named-claimed s now c rest (leave name w)
        (subst (λ n. mem n (leave name w).locked ≡ false) named gone)
        (subst (λ n. mem n (keys (leave name w).active) ≡ false) named unclaimed))
