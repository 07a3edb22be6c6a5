-- ===== src/Bigtable/ChannelSet.antt =====
-- The channels of a user are read back from the columns that hold them.
use autopush_rs.Prelude.{
  ◌+◌, ◌-◌, ◌*◌, ◌%◌, ◌++◌, take, drop, insert, text_eq, text_key, append-nil, Bool-cases, inl, inr,
  ℕ, zero, suc, ◌^◌, ◌<◌, ◌≤◌, ◌≡◌, ◌∙◌, refl, sym, ap, if_true, if_false, leb→le, arith, false,
  some, List, [], ◌∷◌, map, leb, length, contains, nat_eq, if◌then◌else◌,
}
use autopush_rs.Services.{ok}
use autopush_rs.Records.Keys.{AreKeyCrates}
use autopush_rs.Bigtable.{Bigtable, router_family}
use autopush_rs.Bigtable.Messages.{new_cell}
use autopush_rs.Bigtable.Messages.RoundTrip.{columns}
use autopush_rs.Bigtable.Channels.{
  behind_chid, chid_column, channel_cells, channel_cells_from, channels_of_cells, add_channels,
}
use autopush_rs.Bigtable.{Mutation, set_cell, mutate_row_request}
use autopush_rs.Bigtable.Cells.{add_cells}
use autopush_rs.Bigtable.Store.{expiry_after, write_row, get_mutations}
use autopush_rs.Merge.{Cell}

-- A set: 128-bit numbers without repetition.
abbrev pub IsSetOfIds : List ℕ → Type 0
IsSetOfIds [] = Unit
IsSetOfIds (c ∷ cs) = (c < 2 ^ 128) × (contains cs c ≡ false) × IsSetOfIds cs

take-all : {A : Type 0} (n : ℕ) (xs : List A) → length xs ≤ n → take n xs ≡ xs
take-all zero [] h = refl
take-all zero (x ∷ xs) h = absurd (omega (arith, h))
take-all (suc n) [] h = refl
take-all (suc n) (x ∷ xs) h = ap (λ ys. x ∷ ys) (take-all n xs (omega (arith, h)))

length-take :
    {A : Type 0} (n : ℕ) (xs : List A)
    → length (take n xs) ≡ (if leb (length xs) n then length xs else n)
length-take zero [] = refl
length-take zero (x ∷ xs) = ground arith
length-take (suc n) [] = ground arith
length-take (suc n) (x ∷ xs) = ground (arith, length-take n xs)

take-drop : {A : Type 0} (n : ℕ) (xs : List A) → take n xs ++ drop n xs ≡ xs
take-drop zero xs = refl
take-drop (suc n) [] = refl
take-drop (suc n) (x ∷ xs) = ap (λ ys. x ∷ ys) (take-drop n xs)

take_pos :
    {A : Type 0} (n : ℕ) (x : A) (xs : List A) → 0 < n → take n (x ∷ xs) ≡ x ∷ take (n - 1) xs
take_pos zero x xs h = absurd (omega (arith, h))
take_pos {A} (suc n) x xs h = ap (λ (m : ℕ). x ∷ take {A = A} m xs) (omega arith)

take_nil : {A : Type 0} (n : ℕ) → take {A = A} n [] ≡ []
take_nil zero = refl
take_nil (suc n) = refl

map-map :
    {A B C : Type 0} (g : B → C) (f : A → B) (xs : List A)
    → map g (map f xs) ≡ map (λ x. g (f x)) xs
map-map g f [] = refl
map-map g f (x ∷ xs) = ap (λ ys. g (f x) ∷ ys) (map-map g f xs)

module _ (b : Bigtable) where
  -- The cell of a channel.
  abbrev channel_cell : ℕ → ℕ → Cell
  channel_cell expiry channel_id = new_cell (chid_column b channel_id) [] expiry

  -- What the loop has done when it breaks.
  channel_cells_from-take :
      (expiry i : ℕ) (channels : List ℕ)
      → channel_cells_from b expiry i channels
        ≡ map (channel_cell expiry) (take (100000 - i) channels)
  unfolding channel_cells_from
  channel_cells_from-take expiry i [] = sym (ap (map (channel_cell expiry)) (take_nil (100000 - i)))
  channel_cells_from-take expiry i (c ∷ cs) = elim (Bool-cases (leb 100000 i)) [
    | inl e ↦
        let over : 0 ≡ 100000 - i = omega (arith, leb→le 100000 i e) in
        if_true (leb 100000 i) [] _ e
        ∙ ap (λ (n : ℕ). map (channel_cell expiry) (take n (c ∷ cs))) over
    | inr e ↦
        let below : i < 100000 = ground (arith, e) in
        let fewer : 100000 - (i + 1) ≡ 100000 - i - 1 = omega arith in
        if_false (leb 100000 i) [] _ e
        ∙ ap (λ (cells : List Cell). channel_cell expiry c ∷ cells)
            (channel_cells_from-take expiry (i + 1) cs
              ∙ ap (λ (n : ℕ). map (channel_cell expiry) (take n cs)) fewer)
        ∙ sym (ap (map (channel_cell expiry)) (take_pos (100000 - i) c cs (omega (arith, below))))
  ]

  channel_cells-take :
      (expiry : ℕ) (channels : List ℕ)
      → channel_cells b expiry channels ≡ map (channel_cell expiry) (take 100000 channels)
  unfolding channel_cells
  channel_cells-take expiry channels = channel_cells_from-take expiry 0 channels

  -- One mutation of the user's row for each of the channels.
  abbrev pub mutations_for : ℕ → List ℕ → List Mutation
  mutations_for now channels =
      map
        (λ channel_id.
          set_cell router_family (chid_column b channel_id)
            ((now + 1000 * (30 * 24 * 60 * 60)) * 1000 % 2 ^ 64) [])
        channels

  -- The addition of channels is one request, after a reading of the clock. It has a mutation of the
  -- user's row for each channel of a first part of the list, with an expiry in 30 days; and that part
  -- is the whole list or has 100,000 channels, the limit for a request.
  pub add_channels-mutations :
      (uaid : ℕ) (channels : List ℕ) (w : b.World)
      → (written : List ℕ) × (left : List ℕ) × (written ++ left ≡ channels)
        × (length written ≡ (if leb (length channels) 100000 then length channels else 100000))
        × (add_channels b uaid channels w
            ≡ b.mutate_row
                (mutate_row_request b
                  (b.as_simple uaid)
                  (mutations_for (b.system_time w).0 written))
                (b.system_time w).1)
  unfolding add_channels expiry_after write_row get_mutations add_cells insert text_eq
  add_channels-mutations uaid channels w = (
    take 100000 channels,
    drop 100000 channels,
    take-drop 100000 channels,
    length-take 100000 channels,
    ap
          (λ (cells : List Cell).
            b.mutate_row
              (mutate_row_request b (b.as_simple uaid)
                (get_mutations ((router_family, cells) ∷ [])))
              (b.system_time w).1)
          (channel_cells-take ((b.system_time w).0 + 1000 * (30 * 24 * 60 * 60)) channels)
        ∙ ap
            (λ (ms : List Mutation).
              b.mutate_row (mutate_row_request b (b.as_simple uaid) ms) (b.system_time w).1)
            (append-nil _ ∙ map-map _ _ (take 100000 channels)),
  )

  channel_of_column :
      (channel_id : ℕ)
      → behind_chid (chid_column b channel_id) ≡ some (b.keys.as_hyphenated channel_id)
  unfolding behind_chid
  channel_of_column channel_id = ground arith

  channels_of_cells-map :
      (w : AreKeyCrates b.keys) (expiry : ℕ) (channels : List ℕ)
      → IsSetOfIds channels
      → channels_of_cells b (
          columns router_family
            (map (λ channel_id. new_cell (chid_column b channel_id) [] expiry) channels))
        ≡ ok channels
  unfolding channels_of_cells
  channels_of_cells-map w expiry [] h = refl
  channels_of_cells-map w expiry (c ∷ cs) (small, new, h) = ground (
    arith,
    channel_of_column c,
    w.parse_printed c small,
    channels_of_cells-map w expiry cs h,
    new,
  )

  -- A set of at most 100,000 channels is read back from the columns that are written for it.
  pub channels_of_cells-channel_cells :
      (w : AreKeyCrates b.keys) (expiry : ℕ) (channels : List ℕ)
      → IsSetOfIds channels
      → length channels ≤ 100000
      → channels_of_cells b (columns router_family (channel_cells b expiry channels)) ≡ ok channels
  channels_of_cells-channel_cells w expiry channels h n =
      ap (λ (cells : List Cell). channels_of_cells b (columns router_family cells))
        (channel_cells-take expiry channels
          ∙ ap (map (channel_cell expiry)) (take-all 100000 channels n))
      ∙ channels_of_cells-map w expiry channels h
