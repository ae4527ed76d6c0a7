-- ===== src/Ir/Model/Locations.antt =====
-- The order of the locations.
use audit_zoo_bug_byters.Base.{
  refl, ◌≡◌, true, false, Bool, not, ◌||◌, ◌&&◌, Option, none, some, ◌≢◌, ℤ, arith, eq_ℤ, leb_ℤ,
  ◌≤ℤ◌, if◌then◌else◌, text_eq,
}
use audit_zoo_bug_byters.Base.Strings.Laws.{text_eq_refl, text_eq_sound}
use audit_zoo_bug_byters.Ir.Model.{CodeLocation, location_contains, columns_reversed}

-- Two locations of which the first reaches at least as far as the second.
pub record Covers (l m : CodeLocation) : Type 0 where
  pub same_file : l.file_path ≡ m.file_path
  pub starts_first : l.line_start ≤ℤ m.line_start
  pub ends_last : m.line_end ≤ℤ l.line_end
  pub columns :
      (columns_reversed l.column_start m.column_start && eq_ℤ l.line_start m.line_start) ≡ false

leb_ℤ_sound : (a b : ℤ) → leb_ℤ a b ≡ true → a ≤ℤ b
leb_ℤ_sound a b h = ground arith

guards :
    (a b c d : Bool)
    → (if not a then false else if not b || not c then false else if d then false else true) ≡ true
    → (a ≡ true) × (b ≡ true) × (c ≡ true) × (d ≡ false)
guards a b c d h = ground arith

location_contains→Covers : (l m : CodeLocation) → location_contains l m ≡ true → Covers l m
unfolding location_contains
location_contains→Covers l m h =
    let (p, q, r, s) =
      guards (text_eq l.file_path m.file_path) (leb_ℤ l.line_start m.line_start)
        (leb_ℤ m.line_end l.line_end)
        (columns_reversed l.column_start m.column_start && eq_ℤ l.line_start m.line_start) h in
    record {
      same_file = text_eq_sound l.file_path m.file_path p;
      starts_first = leb_ℤ_sound l.line_start m.line_start q;
      ends_last = leb_ℤ_sound m.line_end l.line_end r;
      columns = s;
    }

Covers→location_contains : (l m : CodeLocation) → Covers l m → location_contains l m ≡ true
unfolding location_contains
Covers→location_contains l m c =
    rw (c.same_file, text_eq_refl m.file_path)
      (ground (arith, c.starts_first, c.ends_last, c.columns))

columns_trans :
    (p q r : Option ℤ) (a b c : ℤ)
    → q ≢ none
    → a ≤ℤ b
    → b ≤ℤ c
    → (columns_reversed p q && eq_ℤ a b) ≡ false
    → (columns_reversed q r && eq_ℤ b c) ≡ false
    → (columns_reversed p r && eq_ℤ a c) ≡ false
unfolding columns_reversed
columns_trans p none r a b c n h k x y = absurd (n refl)
columns_trans none (some q) r a b c n h k x y = ground arith
columns_trans (some p) (some q) none a b c n h k x y = ground arith
columns_trans (some p) (some q) (some r) a b c n h k x y = ground arith

-- Every location contains itself.
pub location_contains_refl : (l : CodeLocation) → location_contains l l ≡ true
unfolding location_contains columns_reversed
location_contains_refl l = ground (arith, text_eq_refl l.file_path)

-- If a location contains a second one, whose column is known, and this contains a third, then the first contains the third.
pub location_contains_trans :
    (l m n : CodeLocation)
    → m.column_start ≢ none
    → location_contains l m ≡ true
    → location_contains m n ≡ true
    → location_contains l n ≡ true
location_contains_trans l m n c p q =
    let x = location_contains→Covers l m p in
    let y = location_contains→Covers m n q in
    Covers→location_contains l n (record {
      same_file = cc;
      starts_first = omega (arith, x.starts_first, y.starts_first);
      ends_last = omega (arith, x.ends_last, y.ends_last);
      columns =
          columns_trans l.column_start m.column_start n.column_start l.line_start m.line_start
            n.line_start c x.starts_first y.starts_first x.columns y.columns;
    })
