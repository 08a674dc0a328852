-- ===== src/Examples/Codec.antt =====
-- A hash function, an order of keys and a CBOR writer that are simple enough to compute with: the
-- parameters of the examples. The hash takes the last 32 bytes, the order compares text keys, and
-- the writer puts a number before each value that says what it is.
use ancre.Prelude.{
  ℕ, zero, suc, ◌+◌, ◌≤◌, ◌≡◌, refl, sym, ap, ◌∙◌, ok_inj, true, false, List, [], ◌∷◌, ◌++◌, Option,
  none, some, Result, ok, err, arith, Text, text, length, take, drop, replicate, reverse,
  length-take, length-append,
}
use ancre.Prelude.Int.{pos, negsuc}
use ancre.Prelude.TextOrder.{text_le, text_le-IsOrder}
use ancre.Canon.Hash.{Hash32, Digest}
use ancre.Canon.Cbor.Codec.{ReadsBack}
use ancre.Canon.Cbor.{
  Value, Items, Entries, integer, bytes, float, text_string, bool, null, tag, array, map_of, nil,
  cons, end, entry, KeyOrder, Ciborium,
}

abbrev pub last_32 : List ℕ → Hash32
last_32 bs = record { bytes = take 32 (reverse bs ++ replicate 32 0) }

pub last_32_width : (bs : List ℕ) → length (last_32 bs).bytes ≡ 32
last_32_width bs = omega (
  arith,
  length-take 32 (reverse bs ++ replicate 32 0),
  length-append (reverse bs) (replicate 32 0),
)

abbrev pub key_text : Value → Text
key_text (text_string s) = s
key_text _ = []

mutual
  write : Value → List ℕ → List ℕ
  write (integer (pos n)) r = 0 ∷ n ∷ r
  write (integer (negsuc n)) r = 1 ∷ n ∷ r
  write (float f) r = 2 ∷ f ∷ r
  write (bytes bs) r = 3 ∷ length bs ∷ (bs ++ r)
  write (text_string s) r = 4 ∷ length s ∷ (s ++ r)
  write (bool true) r = 5 ∷ r
  write (bool false) r = 6 ∷ r
  write null r = 7 ∷ r
  write (tag t v) r = 8 ∷ t ∷ write v r
  write (array xs) r = 9 ∷ write_items xs r
  write (map_of es) r = 10 ∷ write_entries es r

  write_items : Items → List ℕ → List ℕ
  write_items nil r = 0 ∷ r
  write_items (cons x xs) r = 1 ∷ write x (write_items xs r)

  write_entries : Entries → List ℕ → List ℕ
  write_entries end r = 0 ∷ r
  write_entries (entry k v es) r = 1 ∷ write k (write v (write_entries es r))

abbrev then_read :
    {A B : Type 0} → Option (A × List ℕ) → (A → List ℕ → Option (B × List ℕ)) → Option (B × List ℕ)
then_read none k = none
then_read (some (a, r)) k = k a r

mutual
  read : ℕ → List ℕ → Option (Value × List ℕ)
  read (suc f) (zero ∷ n ∷ r) = some (integer (pos n), r)
  read (suc f) (suc zero ∷ n ∷ r) = some (integer (negsuc n), r)
  read (suc f) (suc (suc zero) ∷ n ∷ r) = some (float n, r)
  read (suc f) (suc (suc (suc zero)) ∷ n ∷ r) = some (bytes (take n r), drop n r)
  read (suc f) (suc (suc (suc (suc zero))) ∷ n ∷ r) = some (text_string (take n r), drop n r)
  read (suc f) (suc (suc (suc (suc (suc zero)))) ∷ r) = some (bool true, r)
  read (suc f) (suc (suc (suc (suc (suc (suc zero))))) ∷ r) = some (bool false, r)
  read (suc f) (suc (suc (suc (suc (suc (suc (suc zero)))))) ∷ r) = some (null, r)
  read (suc f) (suc (suc (suc (suc (suc (suc (suc (suc zero))))))) ∷ t ∷ r) =
      then_read (read f r) (λ v rest. some (tag t v, rest))
  read (suc f) (suc (suc (suc (suc (suc (suc (suc (suc (suc zero)))))))) ∷ r) =
      then_read (read_items f r) (λ xs rest. some (array xs, rest))
  read (suc f) (suc (suc (suc (suc (suc (suc (suc (suc (suc (suc zero))))))))) ∷ r) =
      then_read (read_entries f r) (λ es rest. some (map_of es, rest))
  read _ _ = none

  read_items : ℕ → List ℕ → Option (Items × List ℕ)
  read_items (suc f) (zero ∷ r) = some (nil, r)
  read_items (suc f) (suc zero ∷ r) =
      then_read (read f r)
        (λ x rest. then_read (read_items f rest) (λ xs after. some (cons x xs, after)))
  read_items _ _ = none

  read_entries : ℕ → List ℕ → Option (Entries × List ℕ)
  read_entries (suc f) (zero ∷ r) = some (end, r)
  read_entries (suc f) (suc zero ∷ r) = then_read (read f r) (λ k rest.
      then_read (read f rest)
        (λ v rest'. then_read (read_entries f rest') (λ es after. some (entry k v es, after))))
  read_entries _ _ = none

take-exact {ℓ} : {A : Type ℓ} (xs ys : List A) → take (length xs) (xs ++ ys) ≡ xs
take-exact [] ys = refl
take-exact (x ∷ xs) ys = ap (◌∷◌ x) (take-exact xs ys)

drop-exact {ℓ} : {A : Type ℓ} (xs ys : List A) → drop (length xs) (xs ++ ys) ≡ ys
drop-exact [] ys = refl
drop-exact (x ∷ xs) ys = drop-exact xs ys

mutual
  unfolding write write_items write_entries

  length-write : (v : Value) (r : List ℕ) → length r + 1 ≤ length (write v r)
  length-write (integer (pos n)) r = omega arith
  length-write (integer (negsuc n)) r = omega arith
  length-write (float f) r = omega arith
  length-write (bytes bs) r = omega (arith, length-append bs r)
  length-write (text_string s) r = omega (arith, length-append s r)
  length-write (bool true) r = omega arith
  length-write (bool false) r = omega arith
  length-write null r = omega arith
  length-write (tag t v) r = omega (arith, length-write v r)
  length-write (array xs) r = omega (arith, length-write_items xs r)
  length-write (map_of es) r = omega (arith, length-write_entries es r)

  length-write_items : (xs : Items) (r : List ℕ) → length r + 1 ≤ length (write_items xs r)
  length-write_items nil r = omega arith
  length-write_items (cons x xs) r =
      omega (arith, length-write x (write_items xs r), length-write_items xs r)

  length-write_entries : (es : Entries) (r : List ℕ) → length r + 1 ≤ length (write_entries es r)
  length-write_entries end r = omega arith
  length-write_entries (entry k v es) r = omega (
    arith,
    length-write k (write v (write_entries es r)),
    length-write v (write_entries es r),
    length-write_entries es r,
  )

mutual
  unfolding write write_items write_entries read read_items read_entries

  read-write :
      (f : ℕ) (v : Value) (r : List ℕ) → length (write v r) ≤ f → read f (write v r) ≡ some (v, r)
  read-write zero v r h = absurd (omega (arith, length-write v r))
  read-write (suc f) (integer (pos n)) r h = refl
  read-write (suc f) (integer (negsuc n)) r h = refl
  read-write (suc f) (float n) r h = refl
  read-write (suc f) (bytes bs) r h = rw (take-exact bs r, drop-exact bs r)
  read-write (suc f) (text_string s) r h = rw (take-exact s r, drop-exact s r)
  read-write (suc f) (bool true) r h = refl
  read-write (suc f) (bool false) r h = refl
  read-write (suc f) null r h = refl
  read-write (suc f) (tag t v) r h = rw (read-write f v r (omega arith))
  read-write (suc f) (array xs) r h = rw (read_items-write_items f xs r (omega arith))
  read-write (suc f) (map_of es) r h = rw (read_entries-write_entries f es r (omega arith))

  read_items-write_items :
      (f : ℕ) (xs : Items) (r : List ℕ)
      → length (write_items xs r) ≤ f
      → read_items f (write_items xs r) ≡ some (xs, r)
  read_items-write_items zero xs r h = absurd (omega (arith, length-write_items xs r))
  read_items-write_items (suc f) nil r h = refl
  read_items-write_items (suc f) (cons x xs) r h = rw (
    read-write f x (write_items xs r) (omega arith),
    read_items-write_items f xs r (omega (arith, length-write x (write_items xs r))),
  )

  read_entries-write_entries :
      (f : ℕ) (es : Entries) (r : List ℕ)
      → length (write_entries es r) ≤ f
      → read_entries f (write_entries es r) ≡ some (es, r)
  read_entries-write_entries zero es r h = absurd (omega (arith, length-write_entries es r))
  read_entries-write_entries (suc f) end r h = refl
  read_entries-write_entries (suc f) (entry k v es) r h =
      let lk = length-write k (write v (write_entries es r)) in
      let lv = length-write v (write_entries es r) in
      rw (
        read-write f k (write v (write_entries es r)) (omega arith),
        read-write f v (write_entries es r) (omega arith),
        read_entries-write_entries f es r (omega arith),
      )

abbrev whole : Option (Value × List ℕ) → Result Text Value
whole (some (v, [])) = ok v
whole _ = err (text "malformed")

instance abbrev pub example_digest : Digest
example_digest = record { digest = last_32; digest_width = last_32_width }

instance abbrev pub example_order : KeyOrder
example_order = record {
  key_le = λ a b. text_le (key_text a) (key_text b);
  key_order = record {
    total = λ a b. text_le-IsOrder.total (key_text a) (key_text b);
    trans = λ a b c. text_le-IsOrder.trans (key_text a) (key_text b) (key_text c);
  };
}

unfoldable pub write_all : Value → List ℕ
unfolding write
write_all v = write v []

unfoldable pub read_all : List ℕ → Result Text Value
unfolding read
read_all bs = whole (read (length bs) bs)

instance abbrev pub example_ciborium : Ciborium
example_ciborium = record { into_writer = λ v. ok (write_all v); from_reader = read_all }

read_all-write_all : (v : Value) → read_all (write_all v) ≡ ok v
unfolding read_all write_all
read_all-write_all v = ap whole (read-write (length (write v [])) v [] (omega arith))

pub example-ReadsBack : ReadsBack example_ciborium
example-ReadsBack w bs h = ap read_all (sym (ok_inj h)) ∙ read_all-write_all w
