-- ===== src/Inventory/Gear.antt =====
-- `Equip` of Shared/Inventory.h: which stacks it moves and where to, and why it may refuse.
use action_rpgserver.Common.{
  ℕ, refl, List, ◌≡◌, ◌≢◌, inl, inr, sym, arith, ◌==◌, ◌&&◌, Option-cases, not, ◌||◌, set, nat_eq,
  some, none, true, ◌⊎◌, elim-cases, Bool, ◌∙◌, false, if◌then◌else◌, Bool-cases, ◌<◌,
}
use action_rpgserver.Common.Text.{text_eq, Text, text_beq, text_beq_iff}
use action_rpgserver.Common.Map.{find}
use action_rpgserver.Common.Outcome.{IfReturns}
use action_rpgserver.Inventory.{equip, Status, succeeded}
use action_rpgserver.Inventory.Stacks.{
  Stack, Catalog, Definition, find_if, get, equipped_container, can_equip, tab_capacity,
}
use action_rpgserver.Inventory.Tally.{find_if-found, get-set, tally, find_if-none}
use action_rpgserver.Inventory.Swaps.{get-set_ne}
use action_rpgserver.Inventory.Valid.{lies, named}

-- It is refused, and keeps the stacks.
abbrev pub IsDenied : List Stack → List Stack × Status → Type 0
IsDenied items r = (r.1 ≢ succeeded) × (r.0 ≡ items)

-- A stack of the identity is in the first tab, the character may wear it, and it is worn afterwards,
-- in the slot of its definition. A stack that was worn there takes its slot of the tab; every other
-- stack stays as it is.
abbrev pub IsWorn : Catalog → ℕ → ℕ → Text → List Stack → List Stack → Type 0
IsWorn catalog character level instance items after =
    (k : ℕ) × (a : Stack) × (d : Definition) × (get items k ≡ some a)
    × (a.instance_id ≡ instance)
    × (a.container ≡ 0)
    × (find a.definition_id catalog ≡ some d)
    × (can_equip d character level ≡ true)
    × (get after k ≡ some (record a { container = equipped_container; slot = d.equipment_slot }))
    × ((j : ℕ)
        → k ≢ j
        → (get after j ≡ get items j)
          ⊎ ((b : Stack) × (get items j ≡ some b)
              × (b.container ≡ equipped_container)
              × (b.slot ≡ d.equipment_slot)
              × (get after j ≡ some (record b { container = 0; slot = a.slot }))))

-- The stack is worn, and in the first tab afterwards; every other stack stays.
abbrev pub IsTakenOff : Text → List Stack → List Stack → Type 0
IsTakenOff instance items after =
    (k : ℕ) × (a : Stack) × (slot : ℕ) × (get items k ≡ some a)
    × (a.instance_id ≡ instance)
    × (a.container ≡ equipped_container)
    × (get after k ≡ some (record a { container = 0; slot = slot }))
    × ((j : ℕ) → k ≢ j → get after j ≡ get items j)

-- No stack has the identity.
abbrev pub IsUnknown : Text → List Stack → Type 0
IsUnknown instance items = tally (named instance) items ≡ 0

-- No stack has the identity, or one does that is not in the first tab, is no equipment, or is not
-- for the character.
abbrev pub NotWearable : Catalog → ℕ → ℕ → Text → List Stack → Type 0
NotWearable catalog character level instance items =
    IsUnknown instance items
    ⊎ ((k : ℕ) × (a : Stack) × (d : Definition) × (get items k ≡ some a)
        × (a.instance_id ≡ instance)
        × (find a.definition_id catalog ≡ some d)
        × ((a.container ≢ 0) ⊎ (d.category ≢ 0) ⊎ (can_equip d character level ≡ false)))

-- No stack has the identity, or one does that is not worn, or the first tab is full.
abbrev pub NotRemovable : Text → List Stack → Type 0
NotRemovable instance items =
    IsUnknown instance items
    ⊎ ((k : ℕ) × (a : Stack) × (get items k ≡ some a)
        × (a.instance_id ≡ instance)
        × (a.container ≢ equipped_container))
    ⊎ ((slot : ℕ) → slot < tab_capacity → 0 < tally (lies slot) items)

module _ (items : List Stack) where
  -- A success, or a refusal for a reason.
  abbrev pub IsDone : (List Stack → Type 0) → Type 0 → List Stack × Status → Type 0
  IsDone P E r = ((r.1 ≡ succeeded) × P r.0) ⊎ (IsDenied items r × E)

  kept :
      (P : List Stack → Type 0) (E : Type 0) (p : Bool) (s : Status) (r : List Stack × Status)
      → s ≢ succeeded
      → (p ≡ true → E)
      → (p ≡ false → IsDone P E r)
      → IsDone P E (if p then (items, s) else r)
  kept P E true s r ne why h = inr ((ne, refl), why refl)
  kept P E false s r ne why h = h refl

  worn :
      (catalog : Catalog) (character level : ℕ) (instance : Text) (k : ℕ) (a : Stack)
      (d : Definition)
      → a.instance_id ≡ instance
      → get items k ≡ some a
      → a.container ≡ 0
      → find a.definition_id catalog ≡ some d
      → can_equip d character level ≡ true
      → IsWorn catalog character level instance items (
          set
            (elim (find_if
              (λ b. b.container == equipped_container && (b.slot == d.equipment_slot))
              items) [
                | none ↦ items
                | some (j, b) ↦ set items j (record b { container = 0; slot = a.slot })
              ])
            k
            (record a { container = equipped_container; slot = d.equipment_slot }))
  worn catalog character level instance k a d same here tab known may =
      elim (Option-cases
        (find_if (λ b. b.container == equipped_container && (b.slot == d.equipment_slot)) items)) [
          | inl bare ↦ rw bare (
            k,
            a,
            d,
            here,
            same,
            tab,
            known,
            may,
            get-set items k a _ here,
            λ j ne. inl (get-set_ne items k j _ ne),
          )
          | inr ((i, b), e) ↦
              let t =
                find_if-found
                  (λ b'. b'.container == equipped_container && (b'.slot == d.equipment_slot)) items
                  i b e in
              let b' : Stack = record b { container = 0; slot = a.slot } in
              let apart : i ≢ k =
                (λ q. let twice : get items k ≡ some b = rw (sym q) t.0 in ground (arith, t.1)) in
              let still : get (set items i b') k ≡ some a = get-set_ne items i k b' apart ∙ here in
              rw e (
                k,
                a,
                d,
                here,
                same,
                tab,
                known,
                may,
                get-set (set items i b') k a _ still,
                λ j ne. elim (Bool-cases (i == j)) [
                  | inl at ↦
                      let q : i ≡ j = ground arith in
                      inr (
                        b,
                        rw (sym q) t.0,
                        ground (arith, t.1),
                        ground (arith, t.1),
                        get-set_ne (set items i b') k j _ ne
                            ∙ rw (sym q) (get-set items i b b' t.0),
                      )
                  | inr off ↦ inl (
                      get-set_ne (set items i b') k j _ ne ∙ get-set_ne items i j b' (ground arith))
                ],
              )
        ]

  pub equip_lem :
      (catalog : Catalog) (instance : Text) (character level : ℕ)
      → IfReturns
          (IsDone
            (IsWorn catalog character level instance items)
            (NotWearable catalog character level instance items))
          (equip catalog instance character level items)
  unfolding equip
  equip_lem catalog instance character level =
      let P = IsWorn catalog character level instance items in
      let E = NotWearable catalog character level instance items in
      elim-cases (IfReturns (IsDone P E)) (find_if (λ a. text_beq a.instance_id instance) items)
        (λ none'. inr (
          ((λ e. cc), refl),
          inl (find_if-none (λ a. text_beq a.instance_id instance) items none'),
        ))
        λ (k, a) found.
          let here = find_if-found (λ a. text_beq a.instance_id instance) items k a found in
          let same : a.instance_id ≡ instance = (text_beq_iff a.instance_id instance).0 here.1 in
          elim-cases (IfReturns (IsDone P E)) (find a.definition_id catalog) (λ _. tt)
            λ d known.
              kept P E (not (a.container == 0) || not (d.category == 0)) _ _ (λ e. cc)
                (λ wrong. elim (Bool-cases (a.container == 0)) [
                  | inl tab ↦ inr (k, a, d, here.0, same, known, inr (inl (ground arith)))
                  | inr worn ↦ inr (k, a, d, here.0, same, known, inl (ground arith))
                ])
                λ tab.
                  kept P E (not (can_equip d character level)) _ _ (λ e. cc)
                    (λ not_for. inr (k, a, d, here.0, same, known, inr (inr (ground arith))))
                    λ may. inl (
                      refl,
                      worn catalog character level instance k a d same here.0 (ground arith) known
                          (ground arith),
                    )
