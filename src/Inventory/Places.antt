-- ===== src/Inventory/Places.antt =====
-- The loop of `Acquire` of Shared/Inventory.h that makes new stacks on free slots.
use action_rpgserver.Common.{
  suc, some, [], ◌∷◌, true, false, inl, inr, refl, List, ℕ, ◌≡◌, arith, ◌<◌, ◌+◌, Bool, ◌*◌, ◌≤◌,
  if◌then◌else◌, length, ◌++◌, if-cases, Bool-cases, ◌==◌, min, not, ◌||◌, ◌-◌,
}
use action_rpgserver.Common.Text.{text_eq, Text, text_beq, text_beq_iff}
use action_rpgserver.Inventory.{place, has_identity}
use action_rpgserver.Inventory.Stacks.{Stack, Catalog, Definition, tab_capacity, is_hex_id}
use action_rpgserver.Inventory.Tally.{tally, Every, Every-append, tally-append}
use action_rpgserver.Inventory.Valid.{IsStack, IsDefinition, lies, named, units, bag}
use action_rpgserver.Inventory.Rooms.{free_slots}
use action_rpgserver.Inventory.Fills.{IsPacked}
use action_rpgserver.Inventory.Marks.{is_free}
use action_rpgserver.Common.Map.{find, IfSome, IfSome-map}

has_identity-named :
    (id : Text) (items : List Stack) → has_identity id items ≡ false → tally (named id) items ≡ 0
unfolding tally
has_identity-named id [] h = refl
has_identity-named id (a ∷ items) h = ground (arith, has_identity-named id items)

module _ (catalog : Catalog) (character level : ℕ) (id : Text) (d : Definition) (w : IsDefinition d)
    (known : find id catalog ≡ some d) (new_identity : ℕ → Text) where
  -- The slots of the tab that are free from a slot on hold nothing.
  abbrev pub AreFree : ℕ → List Bool → List Stack → Type 0
  AreFree slot occupied items =
      (s : ℕ)
      → is_free s occupied ≡ true
      → tally (lies (d.category * tab_capacity + (slot + s))) items ≡ 0

  abbrev pub new_stack : ℕ → ℕ → ℕ → Stack
  new_stack call slot count = record {
    instance_id = new_identity call;
    definition_id = id;
    count = count;
    container = d.category;
    slot = slot;
  }

  -- A new stack on a free slot, under a new name.
  append-IsPacked :
      (items : List Stack) (call slot count : ℕ)
      → IsPacked catalog character level items
      → 0 < count
      → count ≤ d.max_stack
      → slot < tab_capacity
      → is_hex_id (new_identity call) 32 ≡ true
      → has_identity (new_identity call) items ≡ false
      → tally (lies (d.category * tab_capacity + slot)) items ≡ 0
      → IsPacked catalog character level (items ++ new_stack call slot count ∷ [])
  unfolding tally Every
  append-IsPacked items call slot count p pos fits inside hex fresh free =
      let b = new_stack call slot count in
      (
        Every-append (IsStack catalog character level) items (b ∷ []) p.0 (
          record {
            definition = d;
            known = known;
            some_items = pos;
            fits = fits;
            in_tab = inside;
            placed = inl refl;
            identity = hex;
          },
          tt,
        ),
        (λ l. elim (Bool-cases (d.category * tab_capacity + slot == l)) [
          | inl here ↦
              let e : d.category * tab_capacity + slot ≡ l = ground arith in
              let none' : tally (lies l) items ≡ 0 = rw e at free in
              ground (arith, tally-append (lies l) items (b ∷ []), none')
          | inr there ↦ ground (arith, tally-append (lies l) items (b ∷ []), p.1 l)
        ]),
        (λ name. elim (Bool-cases (text_beq (new_identity call) name)) [
          | inl same ↦
              let e : new_identity call ≡ name = (text_beq_iff (new_identity call) name).0 same in
              let none' : tally (named name) items ≡ 0 =
                (let h = has_identity-named (new_identity call) items fresh in rw e at h) in
              ground (arith, tally-append (named name) items (b ∷ []), none')
          | inr other ↦ ground (arith, tally-append (named name) items (b ∷ []), p.2 name)
        ]),
      )

  append-bag :
      (items : List Stack) (call slot count : ℕ) (e : Text)
      → bag (items ++ new_stack call slot count ∷ []) e
        ≡ bag items e + (if text_beq id e then count else 0)
  unfolding tally
  append-bag items call slot count e =
      ground (arith, tally-append (units e) items (new_stack call slot count ∷ []))

  append-AreFree :
      (items : List Stack) (call slot count : ℕ) (rest : List Bool)
      → AreFree slot (false ∷ rest) items
      → AreFree (slot + 1) rest (items ++ new_stack call slot count ∷ [])
  unfolding tally is_free
  append-AreFree items call slot count rest h s free =
      let e : slot + 1 + s ≡ slot + suc s = omega arith in
      let before : tally (lies (d.category * tab_capacity + (slot + 1 + s))) items ≡ 0 =
        rw e (h (suc s) free) in
      ground (
        arith,
        before,
        tally-append (lies (d.category * tab_capacity + (slot + 1 + s))) items
            (new_stack call slot count ∷ []),
      )

  abbrev pub Placed : List Stack → ℕ → List Stack → Type 0
  Placed items n r =
      IsPacked catalog character level r
      × ((e : Text) → bag r e ≡ bag items e + (if text_beq id e then n else 0))

  -- With room for all that remains, the loop adds just that, on free slots and under new names.
  pub place-IsPacked :
      (occupied : List Bool) (slot call remaining : ℕ) (items : List Stack)
      → IsPacked catalog character level items
      → AreFree slot occupied items
      → slot + length occupied ≤ tab_capacity
      → remaining ≤ d.max_stack * free_slots occupied
      → IfSome
          (Placed items remaining)
          (place new_identity id d.max_stack d.category occupied slot call remaining items)
  unfolding place is_free
  place-IsPacked [] slot call remaining items p free inside room = (p, λ e. ground arith)
  place-IsPacked (true ∷ rest) slot call remaining items p free inside room =
      let later =
        place-IsPacked rest (slot + 1) call remaining items p
          (λ s f. let e : slot + 1 + s ≡ slot + suc s = omega arith in rw e (free (suc s) f))
          (omega arith)
          (let z : 0 + free_slots rest ≡ free_slots rest = omega arith in rw z at room) in
      if-cases (IfSome (Placed items remaining)) (remaining == 0) (λ none'. (p, λ e. ground arith))
        (λ _. later)
  place-IsPacked (false ∷ rest) slot call remaining items p free inside room =
      let count = min remaining d.max_stack in
      let z : d.max_stack * (1 + free_slots rest) ≡ d.max_stack + d.max_stack * free_slots rest =
        grind arith in
      if-cases (IfSome (Placed items remaining)) (remaining == 0) (λ none'. (p, λ e. ground arith))
        (λ left.
          if-cases (IfSome (Placed items remaining))
            (not (is_hex_id (new_identity call) 32) || has_identity (new_identity call) items)
            (λ _. tt)
            (λ fresh.
              let at_slot : tally (lies (d.category * tab_capacity + slot)) items ≡ 0 =
                (let e : slot + 0 ≡ slot = omega arith in let h = free 0 refl in rw e at h) in
              IfSome-map (Placed (items ++ new_stack call slot count ∷ []) (remaining - count))
                (Placed items remaining) _
                (λ r q. (q.0, λ e. ground (arith, q.1 e, append-bag items call slot count e)))
                (place-IsPacked rest (slot + 1) (call + 1) (remaining - count)
                  (items ++ new_stack call slot count ∷ [])
                  (append-IsPacked items call slot count p (ground (arith, w.stacks)) (omega arith)
                    (omega arith) (ground arith) (ground arith) at_slot)
                  (append-AreFree items call slot count rest free) (omega arith)
                  (omega (arith, z)))))
