-- ===== src/Metadata/Names.antt =====
-- The names that a table of the named metadata lists, whatever its nodes hold behind the name: which
-- of them `getMetadataOperand` finds, and what `addOperand` adds.
use mathlib.Core.Option
use whack.Prelude.{
  String, ◌==◌, ◌≡◌, refl, sym, ap, ◌∙◌, Bool, true, false, Option, none, some, List, [], ◌∷◌, ◌++◌,
  arith, eq_iff, eq_refl, if◌then◌else◌, Bool-cases, inl, inr, contains, get_or_nil,
}
use whack.Llvm.{Llvm}
use whack.Metadata.Table.{get_all_metadata_operands-matching}
use whack.Metadata.{
  head_string, front, matching, heads, get_metadata_operand, get_metadata_heads, get_metadata_parts,
  parts_of, ◌>>=◌,
}

abbrev pub is_some {ℓ} : {A : Type ℓ} → Option A → Bool
is_some none = false
is_some (some a) = true

module _ (L : Llvm) where
  open L use {Mod, Md, operands, get_named_metadata, add_operand, get_named_metadata-add_operand}

  abbrev pub AreNamed : List Md → List String → Type 0
  AreNamed [] [] = Unit
  AreNamed [] (n ∷ ns) = ⊥
  AreNamed (d ∷ ds) [] = ⊥
  AreNamed (d ∷ ds) (n ∷ ns) = (head_string (operands d) ≡ some n) × AreNamed ds ns

  -- The nodes of the table at a key are named, in order, as the list says.
  abbrev pub HasNames : Mod → String → List String → Type 0
  HasNames m key names = AreNamed (get_or_nil (get_named_metadata m key)) names

  -- What is read of a table depends on that table alone.
  pub get_metadata_operand-named :
      (m m' : Mod) (key name : String)
      → get_named_metadata m key ≡ get_named_metadata m' key
      → get_metadata_operand L m key name ≡ get_metadata_operand L m' key name
  unfolding get_metadata_operand
  get_metadata_operand-named m m' key name same =
      let all =
        get_all_metadata_operands-matching L m key name
        ∙ ap (λ l. matching L name (get_or_nil l)) same
        ∙ sym (get_all_metadata_operands-matching L m' key name) in
      ap (λ o. o >>= (λ ds. some (front ds))) all

  pub get_metadata_parts-named :
      (m m' : Mod) (key name : String)
      → get_named_metadata m key ≡ get_named_metadata m' key
      → get_metadata_parts L m key name ≡ get_metadata_parts L m' key name
  unfolding get_metadata_parts
  get_metadata_parts-named m m' key name same =
      ap (λ o. o >>= parts_of L) (get_metadata_operand-named m m' key name same)

  is_some-matching :
      (name : String) (ds : List Md) (names : List String)
      → AreNamed ds names
      → Option.map (λ (found : List Md). is_some (front found)) (matching L name ds)
        ≡ some (contains names name)
  unfolding matching
  is_some-matching name [] [] h = refl
  is_some-matching name [] (n ∷ ns) h = elim h [ ]
  is_some-matching name (d ∷ ds) [] h = elim h [ ]
  is_some-matching name (d ∷ ds) (n ∷ ns) h =
      rw h.0 (ground (arith, eq_iff name n, eq_iff n name, is_some-matching name ds ns h.1))

  heads-AreNamed :
      (ds : List Md) (names : List String) → AreNamed ds names → heads L ds ≡ some names
  unfolding heads
  heads-AreNamed [] [] h = refl
  heads-AreNamed [] (n ∷ ns) h = elim h [ ]
  heads-AreNamed (d ∷ ds) [] h = elim h [ ]
  heads-AreNamed (d ∷ ds) (n ∷ ns) h = rw (h.0, heads-AreNamed ds ns h.1)

  pub get_metadata_heads-HasNames :
      (m : Mod) (key : String) (names : List String)
      → HasNames m key names
      → get_metadata_heads L m key ≡ some names
  unfolding get_metadata_heads
  get_metadata_heads-HasNames m key names h =
      ground (arith, heads-AreNamed (get_or_nil (get_named_metadata m key)) names h, nil)
    where
      nil : heads L [] ≡ some []
      nil = unfold heads in refl

  -- `getMetadataOperand(...)` as a test finds the names that are listed, and no other.
  pub is_some-get_metadata_operand :
      (m : Mod) (key name : String) (names : List String)
      → HasNames m key names
      → Option.map is_some (get_metadata_operand L m key name) ≡ some (contains names name)
  unfolding get_metadata_operand
  is_some-get_metadata_operand m key name names h =
      rw (get_all_metadata_operands-matching L m key name)
        (ground (arith, is_some-matching name (get_or_nil (get_named_metadata m key)) names h))

  AreNamed-append :
      (ds : List Md) (names : List String) (d : Md) (name : String)
      → AreNamed ds names
      → head_string (operands d) ≡ some name
      → AreNamed (ds ++ d ∷ []) (names ++ name ∷ [])
  AreNamed-append [] [] d name h k = (k, tt)
  AreNamed-append [] (n ∷ ns) d name h k = elim h [ ]
  AreNamed-append (e ∷ ds) [] d name h k = elim h [ ]
  AreNamed-append (e ∷ ds) (n ∷ ns) d name h k = (h.0, AreNamed-append ds ns d name h.1 k)

  -- A node that is added at a key adds its name to the list of that key, and to no other list.
  pub add_operand-HasNames :
      (m : Mod) (key j name : String) (d : Md) (names : List String)
      → head_string (operands d) ≡ some name
      → HasNames m j names
      → HasNames (add_operand key d m) j (if key == j then names ++ name ∷ [] else names)
  add_operand-HasNames m key j name d names k h =
      rw get_named_metadata-add_operand (elim (Bool-cases (key == j)) [
        | inl e ↦ rw e (AreNamed-append (get_or_nil (get_named_metadata m j)) names d name h k)
        | inr e ↦ rw e h
      ])

  matching-append_new :
      (ds : List Md) (names : List String) (d : Md) (name : String)
      → AreNamed ds names
      → contains names name ≡ false
      → head_string (operands d) ≡ some name
      → matching L name (ds ++ d ∷ []) ≡ some (d ∷ [])
  unfolding matching
  matching-append_new [] [] d name h new k = rw (k, eq_refl)
  matching-append_new [] (n ∷ ns) d name h new k = elim h [ ]
  matching-append_new (e ∷ ds) [] d name h new k = elim h [ ]
  matching-append_new (e ∷ ds) (n ∷ ns) d name h new k =
      rw h.0 (ground (arith, eq_iff name n, eq_iff n name, matching-append_new ds ns d name h.1))

  -- A node whose name is new is the one that `getMetadataOperand` finds under that name.
  pub get_metadata_operand-add_operand :
      (m : Mod) (key name : String) (d : Md) (names : List String)
      → HasNames m key names
      → contains names name ≡ false
      → head_string (operands d) ≡ some name
      → get_metadata_operand L (add_operand key d m) key name ≡ some (some d)
  unfolding get_metadata_operand
  get_metadata_operand-add_operand m key name d names h new k =
      let all : matching L name (get_or_nil (get_named_metadata (add_operand key d m) key))
          ≡ some (d ∷ []) =
        rw (get_named_metadata-add_operand, eq_refl)
          (matching-append_new (get_or_nil (get_named_metadata m key)) names d name h new k) in
      rw (get_all_metadata_operands-matching L (add_operand key d m) key name)
        (ap (λ o. o >>= (λ ds. some (front ds))) all)
