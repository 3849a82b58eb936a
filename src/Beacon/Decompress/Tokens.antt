-- ===== src/Beacon/Decompress/Tokens.antt =====
-- DecompressBucketLog on logs of small numbers: the texts that the packed log is made of, and what
-- they stand for.
use front_basicrum_go.Base.{
  ℕ, zero, suc, ◌+◌, ◌-◌, ◌<◌, Bytes, List, [], ◌∷◌, ◌++◌, append_assoc, append-nil, ◌≡◌, ◌≢◌, ◌∙◌,
  sym, refl, ap, Option, none, some, arith, length, length-append, drop, drop-drop, drop-append,
  take-append, replicate, All,
}
use front_basicrum_go.Base.Outcome.{returns}
use front_basicrum_go.Beacon.Number.{decompress_bucket_log_number}
use front_basicrum_go.Beacon.Decompress.{
  star, large_number_wrap, mode_small_numbers, index_byte, Scan, number, continued, read_repeat,
  read_wrapped, read_round, end_round, scan, decompress_bucket_log,
}
use front_basicrum_go.Beacon.Decompress.Steps.{scan_done, scan_next}

-- A digit in base 64, or a larger number in base 36 between two wrap bytes.
pub data Item : Type 0 where
  digit : ℕ → Item
  wrapped : Bytes → Item

-- A number, with the text of its count in base 36 if it is repeated.
pub record Token : Type 0 where
  pub count : Option Bytes
  pub item : Item

abbrev pub Lacks : ℕ → Bytes → Type 0
Lacks b = All (λ c. c ≢ b)

abbrev pub IsItem : Item → Type 0
IsItem (digit c) = (c ≢ star) × (c ≢ large_number_wrap)
IsItem (wrapped t) = Lacks large_number_wrap t

abbrev pub IsCount : Option Bytes → Type 0
IsCount none = Unit
IsCount (some k) = Lacks star k

abbrev pub IsToken : Token → Type 0
IsToken t = IsCount t.count × IsItem t.item

abbrev pub print_item : Item → Bytes
print_item (digit c) = c ∷ []
print_item (wrapped t) = large_number_wrap ∷ (t ++ large_number_wrap ∷ [])

abbrev pub print_count : Option Bytes → Bytes
print_count none = []
print_count (some k) = star ∷ (k ++ star ∷ [])

abbrev pub print : List Token → Bytes
print [] = []
print (t ∷ ts) = print_count t.count ++ (print_item t.item ++ print ts)

index_byte-append :
    (b : ℕ) (t rest : Bytes) → Lacks b t → index_byte b (t ++ b ∷ rest) ≡ some (length t)
unfolding index_byte
index_byte-append b [] rest h = ground arith
index_byte-append b (c ∷ t) rest (hc, h) = ground (arith, index_byte-append b t rest h)

drop_past : (i : ℕ) (log a rest : Bytes) → drop i log ≡ a ++ rest → drop (i + length a) log ≡ rest
drop_past i log a rest e =
    sym (drop-drop i (length a) log) ∙ ap (drop (length a)) e ∙ drop-append a rest

module _ (decode36 : Bytes → ℕ) where
  abbrev pub value_item : Item → ℕ
  value_item (digit c) = decompress_bucket_log_number c
  value_item (wrapped t) = decode36 t

  abbrev pub times : Option Bytes → ℕ
  times none = 1
  times (some k) = decode36 k

  -- A count of zero stands for one, as a count of one does.
  abbrev pub values : List Token → List ℕ
  values [] = []
  values (t ∷ ts) =
      (value_item t.item ∷ replicate (times t.count - 1) (value_item t.item)) ++ values ts

  -- The loop's variables after an item.
  abbrev after : Item → Scan → Scan
  after it s = record {
    i = s.i + length (print_item it);
    num = value_item it;
    repeat = 1;
    out = s.out ++ value_item it ∷ replicate (s.repeat - 1) (value_item it);
  }

  module _ (fuel : ℕ) (log rest : Bytes) (s : Scan) where
    read_wrapped_text :
        (t : Bytes)
        → Lacks large_number_wrap t
        → read_wrapped decode36 (t ++ large_number_wrap ∷ rest) s
          ≡ number (record s { num = decode36 t; i = s.i + length t + 1 })
    unfolding read_wrapped
    read_wrapped_text t h = ground (
      arith,
      index_byte-append large_number_wrap t rest h,
      take-append t (large_number_wrap ∷ rest),
    )

    read_repeat_text :
        (k : Bytes)
        → Lacks star k
        → read_repeat decode36 (k ++ star ∷ rest) s
          ≡ continued (record s { repeat = decode36 k; i = s.i + length k + 2 })
    unfolding read_repeat
    read_repeat_text k h =
        ground (arith, index_byte-append star k rest h, take-append k (star ∷ rest))

    digit_round :
        (c : ℕ)
        → IsItem (digit c)
        → drop s.i log ≡ c ∷ rest
        → scan decode36 (suc fuel) mode_small_numbers log s
          ≡ scan decode36 fuel mode_small_numbers log (after (digit c) s)
    unfolding read_round end_round
    digit_round c h e =
        scan_next decode36 fuel mode_small_numbers log rest c s
          (number (record s { num = decompress_bucket_log_number c })) e (ground arith)

    wrapped_round :
        (t : Bytes)
        → IsItem (wrapped t)
        → drop s.i log ≡ print_item (wrapped t) ++ rest
        → scan decode36 (suc fuel) mode_small_numbers log s
          ≡ scan decode36 fuel mode_small_numbers log (after (wrapped t) s)
    unfolding read_round end_round
    wrapped_round t h e =
        scan_next decode36 fuel mode_small_numbers log (t ++ large_number_wrap ∷ rest)
          large_number_wrap s (number (record s { num = decode36 t; i = s.i + length t + 1 }))
          (e ∙ ap (λ x. large_number_wrap ∷ x) (append_assoc t (large_number_wrap ∷ []) rest))
          (ap returns (read_wrapped_text t h))
        ∙ ap
            (λ j. scan decode36 fuel mode_small_numbers log (record {
              i = j;
              num = decode36 t;
              repeat = 1;
              out = s.out ++ decode36 t ∷ replicate (s.repeat - 1) (decode36 t);
            }))
            (omega (arith, length-append t (large_number_wrap ∷ [])))

    count_round :
        (k : Bytes)
        → Lacks star k
        → drop s.i log ≡ print_count (some k) ++ rest
        → scan decode36 (suc fuel) mode_small_numbers log s
          ≡ scan decode36 fuel mode_small_numbers log
              (record s { i = s.i + length (print_count (some k)); repeat = decode36 k })
    unfolding read_round end_round
    count_round k h e =
        scan_next decode36 fuel mode_small_numbers log (k ++ star ∷ rest) star s
          (continued (record s { repeat = decode36 k; i = s.i + length k + 2 }))
          (e ∙ ap (λ x. star ∷ x) (append_assoc k (star ∷ []) rest))
          (ap returns (read_repeat_text k h))
        ∙ ap
            (λ j.
              scan decode36 fuel mode_small_numbers log (record s { i = j; repeat = decode36 k }))
            (omega (arith, length-append k (star ∷ [])))

  item_round :
      (fuel : ℕ) (log rest : Bytes) (s : Scan) (it : Item)
      → IsItem it
      → drop s.i log ≡ print_item it ++ rest
      → scan decode36 (suc fuel) mode_small_numbers log s
        ≡ scan decode36 fuel mode_small_numbers log (after it s)
  item_round fuel log rest s (digit c) h e = digit_round fuel log rest s c h e
  item_round fuel log rest s (wrapped t) h e = wrapped_round fuel log rest s t h e

  print_item_pos : (it : Item) → 0 < length (print_item it)
  print_item_pos (digit c) = omega arith
  print_item_pos (wrapped t) = omega arith

  abbrev Reads : List Token → Type 0
  Reads ts =
      (fuel : ℕ) (log : Bytes) (s : Scan)
      → drop s.i log ≡ print ts
      → length (print ts) < fuel
      → s.repeat ≡ 1
      → scan decode36 fuel mode_small_numbers log s ≡ some (returns (s.out ++ values ts))

  -- An item with the rest of the tokens behind it, at any repeat count.
  item_then :
      (it : Item) (ts : List Token)
      → IsItem it
      → Reads ts
      → (fuel : ℕ) (log : Bytes) (s : Scan) → drop s.i log ≡ print_item it ++ print ts
      → length (print_item it ++ print ts) < fuel
      → scan decode36 fuel mode_small_numbers log s
        ≡ some (
            returns
              (s.out ++ ((value_item it ∷ replicate (s.repeat - 1) (value_item it)) ++ values ts)))
  item_then it ts h ih zero log s e f = absurd (omega arith)
  item_then it ts h ih (suc fuel) log s e f =
      item_round fuel log (print ts) s it h e
      ∙ ih fuel log (after it s) (drop_past s.i log (print_item it) (print ts) e)
          (omega (arith, length-append (print_item it) (print ts), print_item_pos it)) refl
      ∙ ap (λ o. some (returns o)) (append_assoc s.out _ (values ts))

  token_then :
      (c : Option Bytes) (it : Item) (ts : List Token)
      → IsCount c
      → IsItem it
      → Reads ts
      → Reads (record { count = c; item = it } ∷ ts)
  token_then none it ts hc h ih fuel log s e f r =
      item_then it ts h ih fuel log s e f
      ∙ ap
          (λ n.
            some (
              returns
                (s.out ++ ((value_item it ∷ replicate (n - 1) (value_item it)) ++ values ts))))
          r
  token_then (some k) it ts hc h ih zero log s e f r = absurd (omega arith)
  token_then (some k) it ts hc h ih (suc fuel) log s e f r =
      count_round fuel log (print_item it ++ print ts) s k hc e
      ∙ item_then it ts h ih fuel log
          (record s { i = s.i + length (print_count (some k)); repeat = decode36 k })
          (drop_past s.i log (print_count (some k)) (print_item it ++ print ts) e)
          (omega (arith, length-append (print_count (some k)) (print_item it ++ print ts)))

  scan-print : (ts : List Token) → All IsToken ts → Reads ts
  scan-print [] h zero log s e f r = absurd (omega arith)
  scan-print [] h (suc fuel) log s e f r =
      scan_done decode36 fuel mode_small_numbers log s e
      ∙ ap (λ o. some (returns o)) (sym (append-nil s.out))
  scan-print (t ∷ ts) ((hc, h), hs) fuel log s e f r =
      token_then t.count t.item ts hc h (scan-print ts hs) fuel log s e f r

  -- A packed log of small numbers, printed from any tokens, is unpacked to the numbers of the tokens
  -- in order, each as often as its count says.
  pub decompress_bucket_log-print :
      (ts : List Token)
      → All IsToken ts
      → decompress_bucket_log decode36 (mode_small_numbers ∷ print ts) ≡ some (returns (values ts))
  unfolding decompress_bucket_log
  decompress_bucket_log-print ts h =
      scan-print ts h (suc (length (print ts))) (print ts)
        (record { i = 0; num = 0; repeat = 1; out = [] }) refl (omega arith) refl
