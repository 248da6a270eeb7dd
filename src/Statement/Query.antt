-- ===== src/Statement/Query.antt =====
-- multistatement.go: the chain that `handleMultiQuery` builds.
use gosnowflake.Base.{
  true, false, ◌⊎◌, inl, inr, ◌++◌, append_assoc, append-nil, map, sym, ◌∙◌, subst, suc, ◌+◌, ◌≡◌,
  ◌≢◌, refl, Option, none, some, List, [], ◌∷◌, length, arith, if_cases, ap,
}
use gosnowflake.Base.Int.{ℤ}
use gosnowflake.Base.Text.{Bytes, codes}
use gosnowflake.Rows.{Rows, ResultSet, add_downloader}
use gosnowflake.Rows.Chain.{
  IsLinked, Added, add_downloader-IsLinked, Appended, add_downloader-Appended, contents,
  without_next,
}
use gosnowflake.Statement.Children.{join, LackCommas, get_child_results-join}
use gosnowflake.Statement.{
  no_result_ids, get_child_results, handle_multi_query, failed, ChildResult, Data, Response,
  Outcome, ok, err, panics, Reply, fails, replies, add_reply, query_children, result_path, ◌>>=◌,
  some_or_panic, failure, number_or_error, ExecError, request_failed, not_a_number,
}

module _ {Error : Type 0} (parse_int atoi : Bytes → Option ℤ)
    (get_query_result_resp : Bytes → Reply Error)
    (populate_chunk_downloader : Data → ResultSet) where
  -- The reply for a statement, at the path of its identifier.
  abbrev reply_of : ChildResult → Reply Error
  reply_of child = get_query_result_resp (codes "/queries/" ++ child.id ++ codes "/result")

  -- A statement is answered by a response with success.
  abbrev IsAnswered : ChildResult → Response → Type 0
  IsAnswered child r = (reply_of child ≡ replies (some r)) × (r.success ≡ true)

  -- The statements are answered in turn.
  abbrev AreAnswered : List ChildResult → List Response → Type 0
  AreAnswered [] [] = Unit {0}
  AreAnswered [] (r ∷ rs) = ⊥
  AreAnswered (child ∷ children) [] = ⊥
  AreAnswered (child ∷ children) (r ∷ rs) = IsAnswered child r × AreAnswered children rs

  -- The error of a response without success: its code, if it is a number.
  abbrev IsFailure : Response → ExecError Error → Type 0
  IsFailure r e =
      ((atoi r.code ≡ none) × (e ≡ not_a_number r.code))
      ⊎ ((n : ℤ) × (atoi r.code ≡ some n)
          × (e ≡ failed n r.response_data.sql_state r.message r.response_data.query_id))

  -- The request for a statement fails, or it is answered without success.
  abbrev IsRefused : ChildResult → ExecError Error → Type 0
  IsRefused child e =
      ((cause : Error) × (reply_of child ≡ fails cause) × (e ≡ request_failed cause))
      ⊎ ((r : Response) × (reply_of child ≡ replies (some r)) × (r.success ≡ false) × IsFailure r e)

  -- The first statement that is not answered is refused.
  abbrev Refuses : List ChildResult → ExecError Error → Type 0
  Refuses [] e = ⊥
  Refuses (child ∷ children) e =
      IsRefused child e ⊎ ((r : Response) × IsAnswered child r × Refuses children e)

  -- The downloaders of the responses of the statements, in order, behind those that were there, and
  -- linked; or the error of the first statement that is refused.
  abbrev pub Queried : Rows Error → List ChildResult → Outcome Error (Rows Error) → Type 0
  Queried rows children (ok rows') =
      IsLinked rows'
      × (length rows'.downloaders ≡ length rows.downloaders + length children)
      × (rs : List Response) × AreAnswered children rs
      × (contents rows'
          ≡ contents rows
            ++ map (λ (r : Response). without_next (populate_chunk_downloader r.response_data)) rs)
  Queried rows children (err e) = Refuses children e
  Queried rows children panics = ⊥

  -- What an answer adds stands in front of what the other statements' answers add.
  after_answer :
      (rows rows' : Rows Error) (child : ChildResult) (children : List ChildResult) (r : Response)
      (o : Outcome Error (Rows Error))
      → IsAnswered child r
      → length rows'.downloaders ≡ suc (length rows.downloaders)
      → contents rows'
        ≡ contents rows ++ without_next (populate_chunk_downloader r.response_data) ∷ []
      → Queried rows' children o
      → Queried rows (child ∷ children) o
  after_answer rows rows' child children r (ok end) a n e (w, total, rs, answers, all) = (
    w,
    omega (arith, n, total),
    r ∷ rs,
    (a, answers),
    all
        ∙ ap
            (λ (ds : List ResultSet).
              ds
              ++ map (λ (r : Response). without_next (populate_chunk_downloader r.response_data))
                  rs)
            e
        ∙ append_assoc (contents rows)
            (without_next (populate_chunk_downloader r.response_data) ∷ [])
            (map (λ (r : Response). without_next (populate_chunk_downloader r.response_data)) rs),
  )
  after_answer rows rows' child children r (err c) a n e q = inr (r, a, q)
  after_answer rows rows' child children r panics a n e q = absurd q

  failure-Queried :
      (rows : Rows Error) (child : ChildResult) (children : List ChildResult) (r : Response)
      (next : Rows Error → Outcome Error (Rows Error))
      → reply_of child ≡ replies (some r)
      → r.success ≡ false
      → Queried rows (child ∷ children) (failure parse_int atoi r >>= next)
  unfolding failure
  failure-Queried rows child children r next e s = at (atoi r.code) refl
    where
      at :
          (o : Option ℤ)
          → atoi r.code ≡ o
          → Queried rows (child ∷ children) (
              number_or_error r.code o
              >>= (λ n. err (failed n r.response_data.sql_state r.message r.response_data.query_id))
              >>= next)
      at none c = inl (inr (r, e, s, inl (c, refl)))
      at (some n) c = inl (inr (r, e, s, inr (n, c, refl)))

  module _ (never_nil : (path : Bytes) → get_query_result_resp path ≢ replies none)
      (no_next : (d : Data) → (populate_chunk_downloader d).next_downloader ≡ none) where
    query_children-Queried :
        (children : List ChildResult) (rows : Rows Error)
        → IsLinked rows
        → Queried rows children (
            query_children parse_int atoi get_query_result_resp populate_chunk_downloader children
              rows)
    unfolding query_children add_reply
    query_children-Queried [] rows w = (w, omega arith, [], tt, sym (append-nil (contents rows)))
    query_children-Queried (child ∷ children) rows w =
        at (λ rows' w'. query_children-Queried children rows' w') (reply_of child) refl
          (never_nil (result_path child.id))
      where
        rest : Rows Error → Outcome Error (Rows Error)
        rest =
            query_children parse_int atoi get_query_result_resp populate_chunk_downloader children

        added :
            ((rows' : Rows Error) → IsLinked rows' → Queried rows' children (rest rows'))
            → (r : Response) → IsAnswered child r
            → (o : Option (Rows Error)) → Added rows o
            → Appended (populate_chunk_downloader r.response_data) rows o
            → Queried rows (child ∷ children) (some_or_panic o >>= rest)
        added ih r a none h p = absurd h
        added ih r a (some rows') h p =
            after_answer rows rows' child children r (rest rows') a h.1 p (ih rows' h.0)

        at :
            ((rows' : Rows Error) → IsLinked rows' → Queried rows' children (rest rows'))
            → (reply : Reply Error) → reply_of child ≡ reply
            → reply ≢ replies none
            → Queried rows (child ∷ children) (
                add_reply parse_int atoi get_query_result_resp populate_chunk_downloader rows reply
                >>= rest)
        at ih (fails e) q ne = inl (inl (e, q, refl))
        at ih (replies none) q ne = absurd (ne refl)
        at ih (replies (some r)) q ne =
            let new = populate_chunk_downloader r.response_data in
            if_cases (λ o. Queried rows (child ∷ children) (o >>= rest)) r.success _ _
              (λ s.
                added ih r (q, s) (add_downloader new rows)
                  (add_downloader-IsLinked new rows (no_next r.response_data) w)
                  (add_downloader-Appended new rows))
              (λ s. failure-Queried rows child children r rest q s)

    handle_multi_query-some :
        (d : Data) (rows : Rows Error)
        → d.result_ids ≢ []
        → handle_multi_query parse_int atoi get_query_result_resp populate_chunk_downloader d rows
          ≡ (some_or_panic (get_child_results d.result_ids d.result_types) >>= λ children.
              query_children parse_int atoi get_query_result_resp populate_chunk_downloader children
                rows)
    unfolding handle_multi_query
    handle_multi_query-some d rows ne = at d.result_ids ne
      where
        at :
            (ids : Bytes)
            → ids ≢ []
            → (elim ids [
              | [] ↦ err no_result_ids
              | c ∷ ids ↦ some_or_panic (get_child_results (c ∷ ids) d.result_types) >>= λ children.
                  query_children parse_int atoi get_query_result_resp populate_chunk_downloader
                    children rows
            ])
              ≡ (some_or_panic (get_child_results ids d.result_types) >>= λ children.
                  query_children parse_int atoi get_query_result_resp populate_chunk_downloader
                    children rows)
        at [] ne = absurd (ne refl)
        at (c ∷ ids) ne = refl

    -- If the identifiers and types have no commas, no response is nil and a new downloader has no next
    -- one, `handleMultiQuery` asks for the result of each statement at the path of its identifier. If
    -- all answer with success, it puts the downloaders of their responses in the statements' order
    -- behind those of the chain, which stays linked. Otherwise it returns the error of the first
    -- statement that does not: that of the request, or the one of the response. Nothing panics.
    pub handle_multi_query-Queried :
        (d : Data) (rows : Rows Error) (k : ChildResult) (ks : List ChildResult)
        → d.result_ids ≡ join b',' (map (λ (c : ChildResult). c.id) (k ∷ ks))
        → d.result_types ≡ join b',' (map (λ (c : ChildResult). c.typ) (k ∷ ks))
        → d.result_ids ≢ []
        → LackCommas (k ∷ ks)
        → IsLinked rows
        → Queried rows (k ∷ ks) (
            handle_multi_query parse_int atoi get_query_result_resp populate_chunk_downloader d
              rows)
    handle_multi_query-Queried d rows k ks ids types ne commas w =
        let pairs : get_child_results d.result_ids d.result_types ≡ some (k ∷ ks) =
          ap (λ (i : Bytes). get_child_results i d.result_types) ids
          ∙ ap (get_child_results (join b',' (map (λ (c : ChildResult). c.id) (k ∷ ks)))) types
          ∙ get_child_results-join k ks commas (λ e. ne (ids ∙ e)) in
        subst (Queried rows (k ∷ ks))
          (sym (
            handle_multi_query-some d rows ne
            ∙ ap
                (λ (o : Option (List ChildResult)). some_or_panic o >>= λ cs.
                  query_children parse_int atoi get_query_result_resp populate_chunk_downloader cs
                    rows)
                pairs))
          (query_children-Queried (k ∷ ks) rows w)
