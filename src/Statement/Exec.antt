-- ===== src/Statement/Exec.antt =====
-- multistatement.go: what `handleMultiExec` adds up.
use gosnowflake.Base.{
  ◌≡◌, ◌≢◌, refl, ◌∙◌, ap, true, false, Option, none, some, List, [], ◌∷◌, All, map, if_true,
  if_false, if◌then◌else◌,
}
use gosnowflake.Base.Int.{ℤ, pos, ◌+ℤ◌}
use gosnowflake.Base.Text.{Bytes}
use gosnowflake.Statement.{
  ChildResult, Data, Outcome, ok, Reply, is_dml, wrap_64, child_count, exec_child, exec_children,
  handle_multi_exec, result_path, ◌>>=◌, some_or_panic, number_or_error, get_child_results, err,
  no_result_ids,
}
use gosnowflake.Statement.Wrap.{sum_counts, total, sum_counts-wrap_64}
use gosnowflake.Statement.Children.{join, LackCommas, get_child_results-join}

module _ {Error : Type 0} (parse_int atoi : Bytes → Option ℤ)
    (get_query_result_resp : Bytes → Reply Error) where
  -- The type of a statement is a number; one that changes rows has a count.
  abbrev pub Adds : ChildResult → Option ℤ → Type 0
  Adds k none = (t : ℤ) × (parse_int k.typ ≡ some t) × (is_dml t ≡ false)
  Adds k (some n) =
      (t : ℤ) × (parse_int k.typ ≡ some t)
      × (is_dml t ≡ true)
      × (child_count parse_int atoi (get_query_result_resp (result_path k.id)) ≡ ok n)

  exec_child-none :
      (k : ChildResult) (count : ℤ)
      → Adds k none
      → exec_child parse_int atoi get_query_result_resp k count ≡ ok count
  unfolding exec_child
  exec_child-none k count (t, e, other) =
      ap
        (λ (o : Option ℤ). number_or_error k.typ o >>= λ t.
          if is_dml t
          then (child_count parse_int atoi (get_query_result_resp (result_path k.id)) >>= λ n.
              ok (wrap_64 (count +ℤ n)))
          else ok count)
        e
      ∙ if_false {b = is_dml t} _ _ other

  exec_child-some :
      (k : ChildResult) (n count : ℤ)
      → Adds k (some n)
      → exec_child parse_int atoi get_query_result_resp k count ≡ ok (wrap_64 (count +ℤ n))
  unfolding exec_child
  exec_child-some k n count (t, e, dml, counted) =
      ap
        (λ (o : Option ℤ). number_or_error k.typ o >>= λ t.
          if is_dml t
          then (child_count parse_int atoi (get_query_result_resp (result_path k.id)) >>= λ n.
              ok (wrap_64 (count +ℤ n)))
          else ok count)
        e
      ∙ if_true {b = is_dml t} _ _ dml
      ∙ ap (λ (o : Outcome Error ℤ). o >>= λ n. ok (wrap_64 (count +ℤ n))) counted

  exec_children-sum :
      (ks : List (ChildResult × Option ℤ)) (count : ℤ)
      → All (λ (k : ChildResult × Option ℤ). Adds k.0 k.1) ks
      → exec_children parse_int atoi get_query_result_resp
          (map (λ (k : ChildResult × Option ℤ). k.0) ks)
          count
        ≡ ok (sum_counts (map (λ (k : ChildResult × Option ℤ). k.1) ks) count)
  unfolding exec_children
  exec_children-sum [] count h = refl
  exec_children-sum ((k, none) ∷ ks) count (a, h) =
      ap
        (λ (o : Outcome Error ℤ).
          o
          >>= exec_children parse_int atoi get_query_result_resp
              (map (λ (k : ChildResult × Option ℤ). k.0) ks))
        (exec_child-none k count a)
      ∙ exec_children-sum ks count h
  exec_children-sum ((k, some n) ∷ ks) count (a, h) =
      ap
        (λ (o : Outcome Error ℤ).
          o
          >>= exec_children parse_int atoi get_query_result_resp
              (map (λ (k : ChildResult × Option ℤ). k.0) ks))
        (exec_child-some k n count a)
      ∙ exec_children-sum ks (wrap_64 (count +ℤ n)) h

  handle_multi_exec-some :
      (d : Data)
      → d.result_ids ≢ []
      → handle_multi_exec parse_int atoi get_query_result_resp d ≡ (
          some_or_panic (get_child_results d.result_ids d.result_types) >>= λ children.
          exec_children parse_int atoi get_query_result_resp children (pos 0))
  unfolding handle_multi_exec
  handle_multi_exec-some d ne = at d.result_ids ne
    where
      at :
          (ids : Bytes)
          → ids ≢ []
          → (elim ids [
            | [] ↦ err no_result_ids
            | c ∷ ids ↦ some_or_panic (get_child_results (c ∷ ids) d.result_types) >>= λ children.
                exec_children parse_int atoi get_query_result_resp children (pos 0)
          ])
            ≡ (some_or_panic (get_child_results ids d.result_types) >>= λ children.
                exec_children parse_int atoi get_query_result_resp children (pos 0))
      at [] ne = absurd (ne refl)
      at (c ∷ ids) ne = refl

  -- If the identifiers and types have no commas, every type is a number, and every statement that
  -- changes rows has a response with a count, `handleMultiExec` returns what an `int64` keeps of the
  -- sum of these counts, although it wraps after each of them, whatever the server has for the others.
  pub handle_multi_exec-sum :
      (d : Data) (k : ChildResult × Option ℤ) (ks : List (ChildResult × Option ℤ))
      → d.result_ids
        ≡ join b','
            (map (λ (c : ChildResult). c.id) (map (λ (k : ChildResult × Option ℤ). k.0) (k ∷ ks)))
      → d.result_types
        ≡ join b','
            (map (λ (c : ChildResult). c.typ) (map (λ (k : ChildResult × Option ℤ). k.0) (k ∷ ks)))
      → d.result_ids ≢ []
      → LackCommas (map (λ (k : ChildResult × Option ℤ). k.0) (k ∷ ks))
      → All (λ (k : ChildResult × Option ℤ). Adds k.0 k.1) (k ∷ ks)
      → handle_multi_exec parse_int atoi get_query_result_resp d
        ≡ ok (wrap_64 (total (map (λ (k : ChildResult × Option ℤ). k.1) (k ∷ ks)) (pos 0)))
  unfolding wrap_64
  handle_multi_exec-sum d k ks ids types ne commas adds =
      let children = map (λ (k : ChildResult × Option ℤ). k.0) (k ∷ ks) in
      let pairs : get_child_results d.result_ids d.result_types ≡ some children =
        ap (λ (i : Bytes). get_child_results i d.result_types) ids
        ∙ ap (get_child_results (join b',' (map (λ (c : ChildResult). c.id) children))) types
        ∙ get_child_results-join k.0 (map (λ (k : ChildResult × Option ℤ). k.0) ks) commas
            (λ e. ne (ids ∙ e)) in
      handle_multi_exec-some d ne
      ∙ ap
          (λ (o : Option (List ChildResult)).
            some_or_panic o >>= λ cs. exec_children parse_int atoi get_query_result_resp cs (pos 0))
          pairs
      ∙ exec_children-sum (k ∷ ks) (pos 0) adds
      ∙ ap ok (sum_counts-wrap_64 (map (λ (k : ChildResult × Option ℤ). k.1) (k ∷ ks)) (pos 0))
