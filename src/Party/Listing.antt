-- ===== src/Party/Listing.antt =====
-- `GetPublicParties` of TownServer/PartyManager.cpp: the public parties by their ids. The sort of the standard
-- library is an insertion sort.
use action_rpgserver.Common.{
  [], ◌∷◌, true, inl, inr, ◌↔◌, List, ℕ, if◌then◌else◌, ◌≤◌, ◌≡◌, if-cases, arith, leb, ◌⊎◌,
}
use action_rpgserver.Common.Map.{Map}
use action_rpgserver.Party.State.{Party, Manager, PartyView}
use action_rpgserver.Party.Queries.{make_view}

unfoldable pub public_views : Map ℕ Party → List PartyView
public_views [] = []
public_views ((id, y) ∷ parties) =
    let rest = public_views parties in if y.is_public then make_view y ∷ rest else rest

unfoldable pub insert_view : PartyView → List PartyView → List PartyView
insert_view v [] = v ∷ []
insert_view v (x ∷ views) =
    let rest = insert_view v views in if leb v.party_id x.party_id then v ∷ x ∷ views else x ∷ rest

unfoldable pub sort_views : List PartyView → List PartyView
sort_views [] = []
sort_views (v ∷ views) = insert_view v (sort_views views)

unfoldable pub get_public_parties : Manager → List PartyView
get_public_parties s = sort_views (public_views s.parties)

abbrev pub AtLeast : ℕ → List PartyView → Type 0
AtLeast n [] = Unit
AtLeast n (v ∷ views) = (n ≤ v.party_id) × AtLeast n views

abbrev pub IsAscending : List PartyView → Type 0
IsAscending [] = Unit
IsAscending (v ∷ views) = AtLeast v.party_id views × IsAscending views

abbrev pub IsListed : PartyView → List PartyView → Type 0
IsListed v [] = ⊥
IsListed v (x ∷ views) = (v ≡ x) ⊎ IsListed v views

-- The view is of a public party that the map holds.
abbrev pub IsPublished : PartyView → Map ℕ Party → Type 0
IsPublished v [] = ⊥
IsPublished v ((id, y) ∷ parties) =
    ((y.is_public ≡ true) × (v ≡ make_view y)) ⊎ IsPublished v parties

AtLeast-lower : (m n : ℕ) (views : List PartyView) → m ≤ n → AtLeast n views → AtLeast m views
AtLeast-lower m n [] le h = tt
AtLeast-lower m n (v ∷ views) le h = (omega (arith, h.0), AtLeast-lower m n views le h.1)

AtLeast-insert_view :
    (n : ℕ) (v : PartyView) (views : List PartyView)
    → n ≤ v.party_id
    → AtLeast n views
    → AtLeast n (insert_view v views)
unfolding insert_view
AtLeast-insert_view n v [] le h = (le, tt)
AtLeast-insert_view n v (x ∷ views) le h =
    if-cases (AtLeast n) (leb v.party_id x.party_id) (λ _. (le, h))
      (λ _. (h.0, AtLeast-insert_view n v views le h.1))

IsAscending-insert_view :
    (v : PartyView) (views : List PartyView) → IsAscending views → IsAscending (insert_view v views)
unfolding insert_view
IsAscending-insert_view v [] h = (tt, tt)
IsAscending-insert_view v (x ∷ views) h =
    if-cases IsAscending (leb v.party_id x.party_id)
      (λ le.
        let low : v.party_id ≤ x.party_id = ground arith in
        ((low, AtLeast-lower v.party_id x.party_id views low h.0), h))
      (λ gt. (
        AtLeast-insert_view x.party_id v views (ground arith) h.0,
        IsAscending-insert_view v views h.1,
      ))

IsAscending-sort_views : (views : List PartyView) → IsAscending (sort_views views)
unfolding sort_views
IsAscending-sort_views [] = tt
IsAscending-sort_views (v ∷ views) =
    IsAscending-insert_view v (sort_views views) (IsAscending-sort_views views)

IsListed-insert_view :
    (w v : PartyView) (views : List PartyView)
    → IsListed w (insert_view v views) ↔ ((w ≡ v) ⊎ IsListed w views)
unfolding insert_view
IsListed-insert_view w v [] = (λ h. h, λ h. h)
IsListed-insert_view w v (x ∷ views) =
    let rest = IsListed-insert_view w v views in
    if-cases (λ (r : List PartyView). IsListed w r ↔ ((w ≡ v) ⊎ ((w ≡ x) ⊎ IsListed w views)))
      (leb v.party_id x.party_id) (λ _. (λ h. h, λ h. h))
      (λ _. (
        λ h. elim h [
          | inl e ↦ inr (inl e)
          | inr there ↦ elim (rest.0 there) [ inl e ↦ inl e | inr l ↦ inr (inr l) ]
        ],
        λ h. elim h [
          | inl e ↦ inr (rest.1 (inl e))
          | inr k ↦ elim k [ inl e ↦ inl e | inr l ↦ inr (rest.1 (inr l)) ]
        ],
      ))

IsListed-sort_views :
    (w : PartyView) (views : List PartyView) → IsListed w (sort_views views) ↔ IsListed w views
unfolding sort_views
IsListed-sort_views w [] = (λ h. h, λ h. h)
IsListed-sort_views w (v ∷ views) =
    let here = IsListed-insert_view w v (sort_views views) in
    let rest = IsListed-sort_views w views in
    (
      λ h. elim (here.0 h) [ inl e ↦ inl e | inr l ↦ inr (rest.0 l) ],
      λ h. here.1 (elim h as (λ _. (w ≡ v) ⊎ IsListed w (sort_views views)) [
        | inl e ↦ inl e
        | inr l ↦ inr (rest.1 l)
      ]),
    )

IsListed-public_views :
    (w : PartyView) (parties : Map ℕ Party)
    → IsListed w (public_views parties) ↔ IsPublished w parties
unfolding public_views
IsListed-public_views w [] = (λ h. h, λ h. h)
IsListed-public_views w ((id, y) ∷ parties) =
    let rest = IsListed-public_views w parties in
    if-cases
      (λ (r : List PartyView).
        IsListed w r ↔ (((y.is_public ≡ true) × (w ≡ make_view y)) ⊎ IsPublished w parties))
      y.is_public
      (λ yes'. (
        λ h. elim h [ inl e ↦ inl (yes', e) | inr l ↦ inr (rest.0 l) ],
        λ h. elim h [ inl p ↦ inl p.1 | inr l ↦ inr (rest.1 l) ],
      ))
      (λ no'.
        (λ h. inr (rest.0 h), λ h. elim h [ inl p ↦ absurd (ground arith) | inr l ↦ rest.1 l ]))

-- The listing is in ascending order of the parties' ids, and a view stands in it exactly when it is the view of a
-- public party that the manager holds.
pub get_public_parties_lem :
    (s : Manager)
    → IsAscending (get_public_parties s)
      × ((w : PartyView) → IsListed w (get_public_parties s) ↔ IsPublished w s.parties)
unfolding get_public_parties
get_public_parties_lem s = (
  IsAscending-sort_views (public_views s.parties),
  λ w.
      let a = IsListed-sort_views w (public_views s.parties) in
      let b = IsListed-public_views w s.parties in (λ h. b.0 (a.0 h), λ h. a.1 (b.1 h)),
)
