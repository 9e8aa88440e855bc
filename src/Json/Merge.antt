-- ===== src/Json/Merge.antt =====
-- `merge_json`: the patch `b` is merged into the document `a`, object by object.
use tantylla.Json.Value.{Value, null, object, Fields, end, field, entry}

unfoldable mutual
  pub merge_json : Value → Value → Value
  merge_json (object a) (object b) = object (merge_fields a b)
  merge_json a b = b

  -- `for (k, v) in b { merge_json(a.entry(k).or_insert(Value::Null), v) }`
  pub merge_fields : Fields → Fields → Fields
  merge_fields a end = a
  merge_fields a (field k v b) = merge_fields (entry k null (λ x. merge_json x v) a) b
