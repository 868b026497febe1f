-- ===== src/Outputs/Chat/Created.antt =====
-- ServiceNow over the client that the repository has for it.
use Prim.Native.String.{◌++◌}
use postee.Prelude.{
  String, none, ok, ◌≡◌, refl, arith, value_of, eqb, Bool-cases, Result-cases, Option-cases, inl,
  inr,
}
use postee.Db.Aggregator.{Content}
use postee.Layout.Provider.{LayoutProvider}
use postee.Outputs.Records.{ServiceNowOutput}
use postee.Outputs.Chat.{ChatServices, send_service_now}
use postee.Clients.{
  HttpRequest, HttpResponse, HttpServices, table_url, record_request, insert_record_to_table,
  post_to_slack,
}

-- The services of the outputs, with the calls of Slack and ServiceNow made by the clients.
abbrev pub over : {Block : Type 0} → HttpServices → ChatServices Block → ChatServices Block
over http services = record services {
  post = λ log url body. post_to_slack http url body;
  insert_record = insert_record_to_table http;
}

module _ (http : HttpServices) where
  -- A record that a server has created: the request, to this table, with this body, and its answer.
  pub record IsCreated (instance_name table body : String) : Type 0 where
    pub request : HttpRequest
    pub response : HttpResponse
    pub to_table : request.url ≡ table_url instance_name table
    pub with_body : request.body ≡ body
    pub answered : http.send request ≡ ok response
    pub created : response.status_code ≡ 201

  insert_record_to_table-IsCreated :
      (user password instance_name table body : String)
      → insert_record_to_table http user password instance_name table body ≡ none
      → IsCreated instance_name table body
  unfolding insert_record_to_table
  insert_record_to_table-IsCreated user password instance_name table body h =
      let url : String = table_url instance_name table in
      let request : HttpRequest = record_request http user password url body in
      elim (Option-cases (http.new_request url)) [
        | inr (x, e) ↦ absurd (ground (arith, rw (e, insert_record_to_table) at h))
        | inl e ↦ elim (Result-cases (http.send request)) [
          | inr (x, f) ↦ absurd (ground (arith, rw (e, insert_record_to_table, f) at h))
          | inl (response, f) ↦
              let answer = rw (e, insert_record_to_table, f) at h in
              elim (Bool-cases (eqb response.status_code 201)) [
                | inr n ↦ absurd (ground (arith, rw n at answer))
                | inl n ↦ record {
                  request = request;
                  response = response;
                  to_table = refl;
                  with_body = refl;
                  answered = f;
                  created = ground (arith, n);
                }
              ]
        ]
      ]

  -- Where Send of ServiceNow returns no error, the server has answered 201 to a request to the table of
  -- the settings whose body is the record of the message's title and description.
  pub send_service_now-IsCreated :
      {Block : Type 0} (services : ChatServices Block) (provider : LayoutProvider)
      (o : ServiceNowOutput) (content : Content)
      → send_service_now (over http services) provider o content ≡ none
      → (body : String) × (services.marshal_record
            (value_of "title" content)
            ("[code]" ++ (value_of "description" content ++ "[/code]"))
          ≡ ok body)
        × IsCreated o.instance_name o.table body
  unfolding send_service_now
  send_service_now-IsCreated services provider o content h =
      elim (Result-cases (
        services.marshal_record (value_of "title" content)
          ("[code]" ++ (value_of "description" content ++ "[/code]")))) [
            | inr (x, e) ↦ absurd (ground (arith, rw (e, send_service_now) at h))
            | inl (body, e) ↦ (
              body,
              e,
              insert_record_to_table-IsCreated o.user o.password o.instance_name o.table body
                  (rw (e, send_service_now) at h),
            )
          ]
