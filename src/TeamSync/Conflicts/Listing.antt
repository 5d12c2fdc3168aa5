-- ===== src/TeamSync/Conflicts/Listing.antt =====
-- What is listed of the conflicts (internal/aip2p/team_sync.go: `LoadTeamSyncConflicts`).
use ai_p2p.Prelude.{
  ℕ, suc, zero, ltb, ◌≤◌, ◌⊎◌, ap, mem-keep, Bool, true, false, ◌≡◌, refl, if◌then◌else◌, inl, inr,
  Bool-cases, arith, All, List, [], ◌∷◌, length, map, keep, ◌==◌, Memᴰ, Option, keep-All,
  All-of_mem, mem_of_mem-keep, All-mem, length-keep,
}
use ai_p2p.Prelude.Sorting.{
  sort_stable, IsSorted, sort_stable-IsSorted, sort_stable-All, length-sort_stable, mem-sort_stable,
}
use ai_p2p.Text.{Text}
use ai_p2p.TextMap.{TextMap}
use ai_p2p.Team.Id.{normalize_team_id}
use ai_p2p.TeamSync.State.{Conflict, PersistedState}
use ai_p2p.TeamSync.Conflicts.{
  ConflictFilter, ConflictRecord, record_of, newer_record, take, is_listed, listed_records,
  load_team_sync_conflicts,
}
use ai_p2p.TeamSync.Conflicts.Shown.{IsShown, is_listed_iff}

take-All {ℓ κ} : {A : Type ℓ} (P : A → Type κ) (n : ℕ) (xs : List A) → All P xs → All P (take n xs)
unfolding take
take-All P zero xs h = tt
take-All P (suc n) [] h = tt
take-All P (suc n) (x ∷ xs) h = (h.0, take-All P n xs h.1)

length-take {ℓ} : {A : Type ℓ} (n : ℕ) (xs : List A) → length (take n xs) ≤ n
unfolding take
length-take zero xs = ground arith
length-take (suc n) [] = ground arith
length-take (suc n) (x ∷ xs) = ground (arith, length-take n xs)

take-IsSorted :
    (n : ℕ) (xs : List ConflictRecord)
    → IsSorted newer_record xs
    → IsSorted newer_record (take n xs)
unfolding take
take-IsSorted zero xs h = tt
take-IsSorted (suc n) [] h = tt
take-IsSorted (suc n) (x ∷ xs) h =
    (take-All (λ y. newer_record y x ≡ false) n xs h.0, take-IsSorted n xs h.1)

map-All {ℓ κ ι} :
    {A : Type ℓ} {B : Type κ} (P : B → Type ι) (f : A → B) (xs : List A)
    → All (λ a. P (f a)) xs
    → All P (map f xs)
map-All P f [] h = tt
map-All P f (x ∷ xs) h = (h.0, map-All P f xs h.1)

length-map {ℓ κ} :
    {A : Type ℓ} {B : Type κ} (f : A → B) (xs : List A) → length (map f xs) ≡ length xs
length-map f [] = refl
length-map f (x ∷ xs) = ground (arith, length-map f xs)

mem-map {ℓ κ} :
    {A : Type ℓ} {B : Type κ} (f : A → B) (xs : List A) (a : A) → Memᴰ a xs → Memᴰ (f a) (map f xs)
mem-map f [] a m = elim m [ ]
mem-map f (x ∷ xs) a (Memᴰ.head e) = Memᴰ.head (ap f e)
mem-map f (x ∷ xs) a (Memᴰ.tail t) = Memᴰ.tail (mem-map f xs a t)

-- A record is in an answer, or the answer is as long as the limit, which is not zero, and nothing in it
-- changed before the record did.
abbrev pub IsAnswered : ℕ → ConflictRecord → List ConflictRecord → Type 0
IsAnswered limit answer answers =
    Memᴰ answer answers
    ⊎ ((ltb 0 limit ≡ true)
        × (length answers ≡ limit)
        × All (λ other. newer_record answer other ≡ false) answers)

take-IsAnswered :
    (n : ℕ) (xs : List ConflictRecord) (a : ConflictRecord)
    → Memᴰ a xs
    → IsSorted newer_record xs
    → Memᴰ a (take n xs)
      ⊎ ((length (take n xs) ≡ n) × All (λ other. newer_record a other ≡ false) (take n xs))
unfolding take
take-IsAnswered zero xs a m h = inr (refl, tt)
take-IsAnswered (suc n) [] a m h = elim m [ ]
take-IsAnswered (suc n) (x ∷ xs) a (Memᴰ.head e) h = inl (Memᴰ.head e)
take-IsAnswered (suc n) (x ∷ xs) a (Memᴰ.tail t) h = elim (take-IsAnswered n xs a t h.1) [
  | inl kept ↦ inl (Memᴰ.tail kept)
  | inr (full, newest) ↦
      inr (ap suc full, (All-mem (λ y. newer_record y x ≡ false) xs a h.0 t, newest))
]

module _ (path_unescape : Text → Option Text) (format_stamp format_rfc3339 : ℕ → Text) where
  -- The record of a conflict of the map that the filter asks for.
  abbrev pub IsListed : Text → ConflictFilter → TextMap Conflict → ConflictRecord → Type 0
  IsListed team_id filter conflicts answer =
      (key : Text) × (c : Conflict) × Memᴰ (key, c) conflicts
      × IsShown path_unescape format_stamp format_rfc3339 team_id filter c
      × (answer ≡ record_of c)

  listed_records-IsListed :
      (team_id : Text) (filter : ConflictFilter) (conflicts : TextMap Conflict)
      → All
          (IsListed team_id filter conflicts)
          (listed_records path_unescape format_stamp format_rfc3339 team_id filter conflicts)
  unfolding listed_records
  listed_records-IsListed team_id filter conflicts =
      map-All (IsListed team_id filter conflicts) (λ (e : Text × Conflict). record_of e.1)
        (keep test conflicts)
        (All-of_mem (λ e. IsListed team_id filter conflicts (record_of e.1)) (keep test conflicts)
          (λ e m. (
            e.0,
            e.1,
            mem_of_mem-keep test conflicts e m,
            (is_listed_iff path_unescape format_stamp format_rfc3339 team_id filter e.1).0
                (All-mem (λ e. test e ≡ true) (keep test conflicts) e (keep-All test conflicts) m),
            refl,
          )))
    where
      test : Text × Conflict → Bool
      test e = is_listed path_unescape format_stamp format_rfc3339 team_id filter e.1

  mem-listed_records :
      (team_id : Text) (filter : ConflictFilter) (conflicts : TextMap Conflict)
      (e : Text × Conflict)
      → Memᴰ e conflicts
      → is_listed path_unescape format_stamp format_rfc3339 team_id filter e.1 ≡ true
      → Memᴰ
          (record_of e.1)
          (listed_records path_unescape format_stamp format_rfc3339 team_id filter conflicts)
  unfolding listed_records
  mem-listed_records team_id filter conflicts e m h =
      mem-map (λ (i : Text × Conflict). record_of i.1)
        (keep (λ i. is_listed path_unescape format_stamp format_rfc3339 team_id filter i.1)
          conflicts)
        e
        (mem-keep (λ i. is_listed path_unescape format_stamp format_rfc3339 team_id filter i.1)
          conflicts e m h)

  length-listed_records :
      (team_id : Text) (filter : ConflictFilter) (conflicts : TextMap Conflict)
      → length (listed_records path_unescape format_stamp format_rfc3339 team_id filter conflicts)
        ≤ length conflicts
  unfolding listed_records
  length-listed_records team_id filter conflicts =
      rw
        (length-map (λ (e : Text × Conflict). record_of e.1)
          (keep (λ e. is_listed path_unescape format_stamp format_rfc3339 team_id filter e.1)
            conflicts))
        (length-keep (λ e. is_listed path_unescape format_stamp format_rfc3339 team_id filter e.1)
          conflicts)

  -- Each listed record is that of a conflict of the file that the filter asks for: of the team, if one
  -- is given; not resolved, unless resolved ones are asked for; and of the type, subject and source
  -- wanted. The ones that changed last come first, and there are no more than the limit, where it is
  -- not zero. A conflict of the file is not asked for, or it is listed, or the list is as long as the
  -- limit and everything in it changed no earlier.
  pub load_team_sync_conflicts-IsListed :
      (team : Text) (filter : ConflictFilter) (s : PersistedState)
      → All
          (IsListed (normalize_team_id path_unescape team) filter s.conflicts)
          (load_team_sync_conflicts path_unescape format_stamp format_rfc3339 team filter s)
        × IsSorted newer_record
            (load_team_sync_conflicts path_unescape format_stamp format_rfc3339 team filter s)
        × (length (load_team_sync_conflicts path_unescape format_stamp format_rfc3339 team filter s)
            ≤ (if filter.limit == 0 then length s.conflicts else filter.limit))
        × All
            (λ e.
              (¬ IsShown path_unescape format_stamp format_rfc3339
                (normalize_team_id path_unescape team)
                filter
                e.1)
              ⊎ IsAnswered filter.limit (record_of e.1) (
                  load_team_sync_conflicts path_unescape format_stamp format_rfc3339 team filter s))
            s.conflicts
  unfolding load_team_sync_conflicts
  load_team_sync_conflicts-IsListed team filter s = elim (Bool-cases (filter.limit == 0)) [
    | inl unlimited ↦ rw unlimited (
      listed,
      sorted,
      ground (
        arith,
        length-sort_stable newer_record items,
        length-listed_records team_id filter s.conflicts,
      ),
      answered sorted_items (λ a m. inl m),
    )
    | inr limited ↦ rw limited (
      take-All (IsListed team_id filter s.conflicts) filter.limit sorted_items listed,
      take-IsSorted filter.limit sorted_items sorted,
      length-take filter.limit sorted_items,
      answered (take filter.limit sorted_items)
          (λ a m. cut limited a (take-IsAnswered filter.limit sorted_items a m sorted)),
    )
  ]
    where
      team_id : Text
      team_id = normalize_team_id path_unescape team

      items : List ConflictRecord
      items = listed_records path_unescape format_stamp format_rfc3339 team_id filter s.conflicts

      sorted_items : List ConflictRecord
      sorted_items = sort_stable newer_record items

      listed : All (IsListed team_id filter s.conflicts) sorted_items
      listed =
          sort_stable-All newer_record (IsListed team_id filter s.conflicts) items
            (listed_records-IsListed team_id filter s.conflicts)

      sorted : IsSorted newer_record sorted_items
      sorted =
          sort_stable-IsSorted newer_record (λ a b h. ground arith) (λ a b c h g. ground arith)
            items

      cut :
          (filter.limit == 0) ≡ false
          → (a : ConflictRecord)
          → Memᴰ a (take filter.limit sorted_items)
            ⊎ ((length (take filter.limit sorted_items) ≡ filter.limit)
                × All (λ other. newer_record a other ≡ false) (take filter.limit sorted_items))
          → IsAnswered filter.limit a (take filter.limit sorted_items)
      cut limited a (inl m) = inl m
      cut limited a (inr (full, newest)) = inr (ground (arith, limited), full, newest)

      answered :
          (answers : List ConflictRecord)
          → ((a : ConflictRecord) → Memᴰ a sorted_items → IsAnswered filter.limit a answers)
          → All
              (λ e.
                (¬ IsShown path_unescape format_stamp format_rfc3339 team_id filter e.1)
                ⊎ IsAnswered filter.limit (record_of e.1) answers)
              s.conflicts
      answered answers f =
          All-of_mem
            (λ e.
              (¬ IsShown path_unescape format_stamp format_rfc3339 team_id filter e.1)
              ⊎ IsAnswered filter.limit (record_of e.1) answers)
            s.conflicts
            (λ e m.
              elim (Bool-cases
                (is_listed path_unescape format_stamp format_rfc3339 team_id filter e.1)) [
                  | inr hidden ↦ inl (λ h. cc (
                    (is_listed_iff path_unescape format_stamp format_rfc3339 team_id filter e.1).1
                        h,
                    hidden,
                  ))
                  | inl shown ↦ inr (
                      f (record_of e.1) (
                        mem-sort_stable newer_record (record_of e.1) items
                          (mem-listed_records team_id filter s.conflicts e m shown)))
                ])
