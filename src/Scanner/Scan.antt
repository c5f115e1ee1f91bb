-- ===== src/Scanner/Scan.antt =====
-- A scan as src/scanner performs it: it writes to the database as it goes, and what it wrote stays
-- when it fails. No step reads what another wrote, so a scan is the sequence of its writes and its
-- result.
pub mod Laws
use dabeacon_indexer.Prelude.{Bool, List, [], ◌∷◌, ◌++◌}
use dabeacon_indexer.Error.{Result, ok, err, panic}
use dabeacon_indexer.Chain.{ChainSpec}
use dabeacon_indexer.Store.Tables.{Store}
use dabeacon_indexer.Store.Writes.{Write, apply_all}

abbrev pub Scan : Type 0 → Type 0
Scan A = List Write × Result A

abbrev pub done : Scan (Unit {0})
done = ([], ok tt)

module _ {A : Type 0} where
  -- A step that writes nothing.
  abbrev pub lift : Result A → Scan A
  lift r = ([], r)

  abbrev pub behind : {B : Type 0} → List Write → Result A → (A → Scan B) → Scan B
  behind written (ok a) next = let (later, r) = next a in (written ++ later, r)
  behind written (err e) next = (written, err e)
  behind written panic next = (written, panic)

abbrev pub write : Write → Scan (Unit {0})
write w = (w ∷ [], ok tt)

infixl 5 ◌>>=◌ ◌>>◌
unfoldable pub ◌>>=◌ : {A B : Type 0} → Scan A → (A → Scan B) → Scan B
(written, r) >>= next = behind written r next

abbrev pub ◌>>◌ : {B : Type 0} → Scan (Unit {0}) → Scan B → Scan B
m >> k = m >>= λ _. k

-- `for x in xs { step(x)?; }`
unfoldable pub for_all : {A : Type 0} → (A → Scan (Unit {0})) → List A → Scan (Unit {0})
for_all step [] = done
for_all step (x ∷ xs) = step x >> for_all step xs

-- The store behind a scan, whatever its result.
unfoldable pub after : {A : Type 0} → ChainSpec → Store → Scan A → Store
after spec store (written, r) = apply_all spec store written
