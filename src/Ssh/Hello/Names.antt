-- ===== src/Ssh/Hello/Names.antt =====
-- The name-lists of RFC 4251: what `parseHello` cuts at the commas is what was joined.
use honeynet.Base.{
  ◌≡◌, ◌≢◌, refl, List, [], ◌∷◌, All, Bytes, join, Lacks, split_on-join, split_on-Lacks,
}
use honeynet.Ssh.Hello.{items}

abbrev pub NoComma : Bytes → Type 0
NoComma = Lacks b','

abbrev pub IsName : Bytes → Type 0
IsName x = (x ≢ []) × NoComma x

names-NoComma : (names : List Bytes) → All IsName names → All NoComma names
names-NoComma [] h = tt
names-NoComma (x ∷ names) h = (h.0.1, names-NoComma names h.1)

pub items-join : (names : List Bytes) → All IsName names → items (join b',' names) ≡ names
unfolding items
items-join [] h = refl
items-join ([] ∷ names) h = absurd (h.0.0 refl)
items-join ((c ∷ x) ∷ []) h = split_on-join b',' (c ∷ x) [] (names-NoComma ((c ∷ x) ∷ []) h)
items-join ((c ∷ x) ∷ y ∷ names) h =
    split_on-join b',' (c ∷ x) (y ∷ names) (names-NoComma ((c ∷ x) ∷ y ∷ names) h)

-- Names that are read have no comma in them.
pub items-NoComma : (raw : Bytes) → All NoComma (items raw)
unfolding items
items-NoComma [] = tt
items-NoComma (c ∷ raw) = split_on-Lacks b',' (c ∷ raw)
