-- ===== src/Beacon/Fields.antt =====
-- beacon/beacon.go: calculateDelta, getDeviceType, getScreenSize and getEventType, which turn single
-- parameters into columns.
use front_basicrum_go.Base.{
  ℕ, ◌-◌, ◌≤◌, Bytes, List, [], ◌∷◌, ◌++◌, ◌≡◌, ◌≢◌, refl, ap, Bool, false, ◌||◌, is_empty,
  is_empty_of_ne, ltb, if◌then◌else◌, codes, arith, split, count, split-append, split_whole,
  length-split, length,
}
use front_basicrum_go.Base.Decimal.{
  ℤ, pos, negsuc, atoi, itoa, sub_int64, max_int64, atoi-itoa, itoa-ne-nil,
}
use Prim.Native.Nat.{min}

-- The two tests of calculateDelta on an int64.
clamp : ℤ → ℕ
clamp (negsuc n) = 0
clamp (pos n) = if ltb 65535 n then 65535 else n

unfoldable pub calculate_delta : Bytes → Bytes → Bytes
unfolding clamp
calculate_delta p1 p2 =
    if is_empty p2 || is_empty p1 then [] else itoa (clamp (sub_int64 (atoi p2) (atoi p1)))

-- What github.com/mileusna/useragent says of a user agent.
pub record UserAgent : Type 0 where
  pub mobile : Bool
  pub tablet : Bool
  pub desktop : Bool
  pub bot : Bool

-- The four tests stand one behind the other: the last that holds decides.
unfoldable pub get_device_type : (Bytes → UserAgent) → Bytes → Bytes
get_device_type parse uagent =
    let ua = parse uagent in
    let d0 = codes "unknown" in
    let d1 = if ua.mobile then codes "mobile" else d0 in
    let d2 = if ua.tablet then codes "tablet" else d1 in
    let d3 = if ua.desktop then codes "desktop" else d2 in if ua.bot then codes "bot" else d3

size_of : List Bytes → Bytes × Bytes
size_of (w ∷ h ∷ []) = (w, h)
size_of _ = ([], [])

unfoldable pub get_screen_size : Bytes → Bytes × Bytes
unfolding size_of
get_screen_size scr_xy = size_of (split b'x' scr_xy)

unfoldable pub get_event_type : Bool → Bytes → Bytes
get_event_type is_quit http_initiator =
    if is_empty http_initiator
    then (if is_quit then codes "quit_page" else codes "visit_page")
    else http_initiator

is_empty-itoa : (n : ℕ) → is_empty (itoa n) ≡ false
is_empty-itoa n = is_empty_of_ne (itoa n) (itoa-ne-nil n)

clamp_difference :
    (a b : ℕ)
    → a ≤ max_int64
    → b ≤ max_int64
    → clamp (sub_int64 (pos b) (pos a)) ≡ min (b - a) 65535
unfolding clamp sub_int64
clamp_difference a b ha hb = ground arith

size_of_other : (l : List Bytes) → length l ≢ 2 → size_of l ≡ ([], [])
unfolding size_of
size_of_other [] h = refl
size_of_other (a ∷ []) h = refl
size_of_other (a ∷ b ∷ []) h = absurd (h refl)
size_of_other (a ∷ b ∷ c ∷ l) h = refl

-- Between the decimal prints of two int64 the delta is their difference, 0 for an end before the
-- start and at most 65535.
pub calculate_delta-itoa :
    (a b : ℕ)
    → a ≤ max_int64
    → b ≤ max_int64
    → calculate_delta (itoa a) (itoa b) ≡ itoa (min (b - a) 65535)
unfolding calculate_delta sub_int64
calculate_delta-itoa a b ha hb =
    rw (is_empty-itoa a, is_empty-itoa b, atoi-itoa a ha, atoi-itoa b hb)
      (ap itoa (clamp_difference a b ha hb))

-- Whatever two texts that are not empty hold, their delta is the print of a number that a UInt16
-- holds.
pub calculate_delta_fits :
    (p1 p2 : Bytes) → p1 ≢ [] → p2 ≢ [] → (n : ℕ) × (calculate_delta p1 p2 ≡ itoa n) × (n ≤ 65535)
unfolding calculate_delta
calculate_delta_fits p1 p2 h1 h2 =
    (clamp (sub_int64 (atoi p2) (atoi p1)), ground arith, ground arith)

-- A size is taken apart at its one `x`; with no `x` or with several there is no size.
pub get_screen_size_lem :
    (w h s : Bytes)
    → count b'x' w ≡ 0
    → count b'x' h ≡ 0
    → count b'x' s ≢ 1
    → (get_screen_size (w ++ b'x' ∷ h) ≡ (w, h)) × (get_screen_size s ≡ ([], []))
unfolding get_screen_size
get_screen_size_lem w h s hw hh hs = (
  rw (split-append b'x' w h hw) (rw (split_whole b'x' h hh)),
  size_of_other (split b'x' s) (omega (arith, length-split b'x' s)),
)
