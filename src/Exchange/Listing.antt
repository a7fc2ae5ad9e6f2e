-- ===== src/Exchange/Listing.antt =====
-- The list that the server makes is the list that the client shows.
use daemon_file_hosting.Base.{
  ◌^◌, ◌<◌, ◌≡◌, refl, sym, subst, ◌∙◌, ap, true, ◌++◌, List, [], ◌∷◌, none, some, Option, inl, inr,
  Bytes, length, append_assoc, arith, Option-cases, append-cut,
}
use daemon_file_hosting.Base.Int.{pos, pos_part}
use daemon_file_hosting.Bson.{Doc}
use daemon_file_hosting.External.{Tls, Platform}
use daemon_file_hosting.External.Laws.{IsStream}
use daemon_file_hosting.World.{World}
use daemon_file_hosting.Protocol.{RequestHeader, ResponseHeader, encode_response, resp_success}
use daemon_file_hosting.Transfer.Sent.{KeepsMoving}
use daemon_file_hosting.Server.Reply.{respond_with}
use daemon_file_hosting.Server.Listing.{
  Buffer, add_json, build_list, close_list, handle_list_request, or_query, list_options,
}
use daemon_file_hosting.Server.Listing.Builder.{HasRoom, texts, json_array, build_list-json_array}
use daemon_file_hosting.Client.{LocalDisk}
use daemon_file_hosting.Client.Listing.{list_files_ssl}
use daemon_file_hosting.Client.Answer.{list_files_ssl-shows, reply-parts}
use daemon_file_hosting.Exchange.Replies.{send-sent, respond_with-sent}

module _ (P : Platform) where
  add_json-conn :
      (json : Bytes) (list : Option Buffer) (w : World P) → (add_json P json list w).1.conn ≡ w.conn
  unfolding add_json
  add_json-conn json none w = refl
  add_json-conn json (some b) w = refl

  build_list-conn :
      (docs : List Doc) (list : Option Buffer) (w : World P)
      → (build_list P docs list w).1.conn ≡ w.conn
  unfolding build_list
  build_list-conn [] list w = refl
  build_list-conn (doc ∷ docs) list w = elim (Option-cases (P.mongo.as_json doc)) [
    | inl nothing ↦ rw (nothing, build_list) (build_list-conn docs list w)
    | inr (json, e) ↦ rw (e, build_list) (build_list-conn docs _ _ ∙ add_json-conn json list w)
  ]

  close_list-conn : (list : Option Buffer) (w : World P) → (close_list P list w).1.conn ≡ w.conn
  unfolding close_list
  close_list-conn none w = refl
  close_list-conn (some b) w = refl

  -- The text of the list of a request.
  abbrev pub listed : World P → Bytes
  listed w = json_array (texts P (P.mongo.find w.db or_query list_options))

module _ (P : Platform) (R : HasRoom P) (S : IsStream P.tls) (K : KeepsMoving P.tls) where
  -- The reply to a request for the list: a header with the length of the list, and the list.
  pub handle_list_request-sent :
      (fingerprint : Bytes) (w : World P)
      → length (listed P w) < 2 ^ 31
      → S.sent (handle_list_request P fingerprint w).1.conn
        ≡ S.sent w.conn
          ++ (encode_response
                (record { status = resp_success; filesize = pos (length (listed P w)) })
              ++ listed P w)
  unfolding handle_list_request
  handle_list_request-sent fingerprint w small =
      let docs = P.mongo.find w.db or_query list_options in
      let b = build_list P docs none w in
      let t = close_list P b.0 b.1 in
      let same : t.0 ≡ listed P w = build_list-json_array P R docs w in
      let begun = respond_with P resp_success (pos (length t.0)) t.1 in
      let fits : length t.0 < 2 ^ 31 = subst (λ (s : Bytes). length s < 2 ^ 31) (sym same) small in
      send-sent P S K t.0 begun.1 fits
      ∙ ap (λ s. s ++ t.0) (respond_with-sent P S K resp_success (pos (length t.0)) t.1)
      ∙ append_assoc (S.sent t.1.conn) _ t.0
      ∙ (λ i.
          S.sent ((close_list-conn P b.0 b.1 ∙ build_list-conn P docs none w) i)
          ++ (encode_response (record { status = resp_success; filesize = pos (length (same i)) })
              ++ same i))

module _ (P : Platform) (R : HasRoom P) (S : IsStream P.tls) (K : KeepsMoving P.tls) (T : Tls)
    (L : LocalDisk) (C : IsStream T) where
  -- Where no allocation and no write of the server's fails and its list is below 2 ^ 31 bytes, a
  -- client to which the server's reply comes in, and that reports the list as shown, has shown the
  -- JSON array of the texts of the documents that the server found, and left what comes behind it.
  pub list_is_shown :
      (fingerprint : Bytes) (w : World P) (junk : RequestHeader) (c : T.Conn)
      (out reply rest : Bytes)
      → length (listed P w) < 2 ^ 31
      → S.sent (handle_list_request P fingerprint w).1.conn ≡ S.sent w.conn ++ reply
      → C.incoming c ≡ reply ++ rest
      → (list_files_ssl T L junk (c, out)).0 ≡ true
      → ((list_files_ssl T L junk (c, out)).1.1 ≡ out ++ listed P w)
        × (C.incoming (list_files_ssl T L junk (c, out)).1.0 ≡ rest)
  list_is_shown fingerprint w junk c out reply rest small replied came ok =
      let (size, message, text, len, says, long, taken, shown) =
        list_files_ssl-shows T L C junk c out ok in
      let header : ResponseHeader = record {
        status = resp_success;
        filesize = pos (length (listed P w));
      } in
      let (_, is_reply) =
        append-cut (S.sent w.conn) reply (S.sent w.conn) (encode_response header ++ listed P w) refl
          (sym replied ∙ handle_list_request-sent P R S K fingerprint w small) in
      let all =
        sym taken
        ∙ came
        ∙ ap (λ r. r ++ rest) is_reply
        ∙ append_assoc (encode_response header) (listed P w) rest in
      let (same, after) =
        reply-parts T L C message _ _ header size (omega arith) (omega arith) (omega arith) len says
          all in
      let long_as : length text ≡ length (listed P w) =
        long ∙ ap (λ (h : ResponseHeader). pos_part h.filesize) (sym same) in
      let (text_is, rest_is) = append-cut text _ (listed P w) rest long_as after in
      (shown ∙ ap (λ t. out ++ t) text_is, rest_is)
