-- ===== src/Engine/Synced.antt =====
-- A cached document and the index that is yet to be committed: what it means that they agree, and what
-- a deletion or an addition of another document does to it.
use mathlib.Core.List.{append-nil}
use tantylla.Base.{
  ◌≡◌, refl, ap, ◌∙◌, String, Bool, false, not, Option, none, some, List, [], ◌∷◌, ◌++◌, keep,
  arith,
}
use tantylla.Base.Assoc.{lookup}
use tantylla.Base.AssocKeys.{DistinctKeys}
use tantylla.Engine.Doc.{Doc, full_doc_wrapper}
use tantylla.Engine.Index.{Tantivy, Term, id_term}
use tantylla.Engine.State.{Engine}
use tantylla.Engine.Stored.{Documented, InI64}

module _ {ℓ} {A : Type ℓ} where
  abbrev pub option_list : Option A → List A
  option_list none = []
  option_list (some a) = a ∷ []

  pub keep-append : (p : A → Bool) (xs ys : List A) → keep p (xs ++ ys) ≡ keep p xs ++ keep p ys
  keep-append p [] ys = refl
  keep-append p (x ∷ xs) ys = ground (arith, keep-append p xs ys)

  keep_comm : (p q : A → Bool) (xs : List A) → keep p (keep q xs) ≡ keep q (keep p xs)
  keep_comm p q [] = refl
  keep_comm p q (x ∷ xs) = ground (arith, keep_comm p q xs)

  pub keep_none : (p : A → Bool) (xs : List A) → keep p (keep (λ x. not (p x)) xs) ≡ []
  keep_none p [] = refl
  keep_none p (x ∷ xs) = ground (arith, keep_none p xs)

module _ (t : Tantivy) (doc : Documented t) where
  open doc use {pending, matches}

  -- The pending documents of an id are the one that is cached, if the index takes it.
  pub record Synced (ix : t.Index) (id : String) (d : Doc) : Type 0 where
    pub same_id : d.id ≡ id
    pub in_range : InI64 d.expires_at
    pub stored :
        keep (matches (id_term id)) (pending ix) ≡ option_list (t.parse_json (full_doc_wrapper d))

  pub record InSync (e : Engine t) : Type 0 where
    pub distinct : DistinctKeys e.uncommitted_docs
    pub synced :
        (id : String) (d : Doc) → lookup id e.uncommitted_docs ≡ some d → Synced e.index id d

  -- A deletion that does not concern the document leaves it where it is.
  pub Synced-delete_term :
      (x : Term) (ix : t.Index) (id : String) (d : Doc)
      → ((s : t.Document) → t.parse_json (full_doc_wrapper d) ≡ some s → matches x s ≡ false)
      → Synced ix id d
      → Synced (t.delete_term x ix) id d
  Synced-delete_term x ix id d other s = record {
    same_id = s.same_id;
    in_range = s.in_range;
    stored =
        ap (keep (matches (id_term id))) (doc.pending-delete_term x ix)
        ∙ keep_comm (matches (id_term id)) (λ v. not (matches x v)) (pending ix)
        ∙ ap (keep (λ v. not (matches x v))) s.stored
        ∙ kept (t.parse_json (full_doc_wrapper d)) other;
  }
    where
      kept :
          (o : Option t.Document)
          → ((v : t.Document) → o ≡ some v → matches x v ≡ false)
          → keep (λ v. not (matches x v)) (option_list o) ≡ option_list o
      kept none h = refl
      kept (some v) h = rw (h v refl)

  -- Nor does an added document of another id.
  pub Synced-add_document :
      (s : t.Document) (ix ix' : t.Index) (id : String) (d : Doc)
      → t.add_document s ix ≡ some ix'
      → matches (id_term id) s ≡ false
      → Synced ix id d
      → Synced ix' id d
  Synced-add_document s ix ix' id d added other y = record {
    same_id = y.same_id;
    in_range = y.in_range;
    stored =
        ap (keep (matches (id_term id))) (doc.pending-add_document s ix ix' added)
        ∙ keep-append (matches (id_term id)) (pending ix) (s ∷ [])
        ∙ rw other (append-nil _ ∙ y.stored);
  }
