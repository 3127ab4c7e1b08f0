-- ===== src/Wrapper/Assoc.antt =====
-- A table that meets the interface of Wrapper/Defs.antt: an association list with distinct keys.
use go_dcp.Prelude.{
  ◌≡◌, refl, Option, none, some, List, [], Comparable, lookup, insert, erase, HasDistinctKeys,
  lookup-insert, lookup-erase, insert-HasDistinctKeys, erase-HasDistinctKeys, length, if◌then◌else◌,
}
use go_dcp.Wrapper.Defs.{CsMap, visit}

pub record Assoc (K V : Type 0) ⦃c : Comparable K⦄ : Type 0 where
  pub list : List (K × V)
  pub distinct : HasDistinctKeys list

module _ {K : Type 0} ⦃c : Comparable K⦄ where
  module _ {V : Type 0} where
    abbrev pub set : Assoc K V → K → V → Assoc K V
    set m k v = record {
      list = insert k v m.list;
      distinct = insert-HasDistinctKeys k v m.list m.distinct;
    }

    abbrev pub del : Assoc K V → K → Assoc K V
    del m k = record { list = erase k m.list; distinct = erase-HasDistinctKeys k m.list m.distinct }

    abbrev pub write : Assoc K V → K → Option V → Assoc K V
    write m k none = m
    write m k (some v) = set m k v

    pub lookup-write-some :
        (m : Assoc K V) (k j : K) (o : Option V) (v : V)
        → o ≡ some v
        → lookup j (write m k o).list ≡ (if c.beq k j then some v else lookup j m.list)
    lookup-write-some m k j o v h = rw h (lookup-insert k j v m.list)

    pub lookup-write-none :
        (m : Assoc K V) (k j : K) (o : Option V)
        → o ≡ none
        → lookup j (write m k o).list ≡ lookup j m.list
    lookup-write-none m k j o h = rw h

  abbrev pub assoc : CsMap K
  assoc = record {
    Table = λ V. Assoc K V;
    new = λ V. record { list = []; distinct = tt };
    get = λ V m k. lookup k m.list;
    set = λ V m k v. set m k v;
    del = λ V m k. del m k;
    set_if = λ V m k f. write m k (f (lookup k m.list));
    entries = λ V m. m.list;
    walk = λ V S f m s. visit f m.list s;
    size = λ V m. length m.list;
    get-new = λ V k. refl;
    get-set = λ V m k j v. lookup-insert k j v m.list;
    get-del = λ V m k j. lookup-erase k j m.list;
    get-set_if_some = λ V m k j f v h. lookup-write-some m k j _ v h;
    get-set_if_none = λ V m k j f h. lookup-write-none m k j _ h;
    lookup-entries = λ V m k. refl;
    entries-HasDistinctKeys = λ V m. m.distinct;
    walk-visit = λ V S f m s. refl;
    size-entries = λ V m. refl;
  }
