-- ===== src/Lib.antt =====
-- whaloc, a local stand-in for the WhatsApp Cloud API. The server (packages/server) plays Meta's
-- side: it answers the Graph API, walks messages through their statuses and injects errors on
-- request. The web client (packages/web) is one reducer fed by REST answers and by the events
-- that the server sends over a WebSocket. Both use the records of packages/shared.
--
-- Base: the helpers the parts share. Lists keyed by an id, upserts and association lists for
--   `Map`s and objects; `to_sorted` is `Array.toSorted`.
-- Shared: packages/shared/src. Shared.Common has the enumerations of control-plane/common.ts,
--   Shared.Entities the records of control-plane/*.ts and the events of ws-events.ts (WsEvent),
--   Shared.Conversation `conversationId` and `parseConversationId`.
-- GraphError: packages/server/src/domain/graph-api-error.ts and factories of meta-errors.ts.
-- ByteRange: packages/server/src/graph-api/byte-range.ts, the `Range` header of a download.
-- Placeholders: packages/server/src/domain/template-placeholders.ts, the slots in the text of a
--   template. Occurrences is about the names of a text once each, Scanning about a text of slots.
-- Failure: what a service throws, an error of the Graph API or of the control plane, or a write
--   that a key of the schema refuses.
-- Database: packages/server/src/db. Wabas, PhoneNumbers and Media are the tables of
--   repositories/waba-repository.ts, phone-number-repository.ts and media-repository.ts, with the
--   keys of migrations.ts; Database.Tables has them together with the cascades of a deletion, and
--   Database.Order is about the order of a listing.
-- Accounts: packages/server/src/domain/waba-service.ts and phone-number-service.ts.
--   Accounts.PhoneNumbers and Accounts.Wabas have the operations, with the effects that each call
--   announces, and Accounts.Rows what they share; Format is phone-number-format.ts, Quality the
--   ratings, Registry meta-id-registry.ts. Steps makes the calls a step relation; Writes, Digits,
--   Changes and Calls say what a call does to the rows, and Uniqueness, Ladder, Keys, Deletion
--   and Cascades are about sequences of calls.
-- Storage: packages/server/src/storage, the directory of files.
-- Uploads: packages/server/src/domain/upload-service.ts over the table of
--   db/repositories/upload-session-repository.ts (Uploads.Table). Content, Resume are about an
--   upload in chunks.
-- Webhooks: packages/server/src/domain/webhook-emitter.ts, with the log of
--   db/repositories/webhook-delivery-repository.ts (Webhooks.Deliveries) and the signature of
--   meta-json.ts (Webhooks.Signature). A delivery returns the log, its effects and one record per
--   attempt. Retries is about the attempts, Handshake about the receiver.
-- Templates: packages/server/src/domain/template-service.ts over the table of
--   db/repositories/template-repository.ts (Templates.Table) and the header handles of
--   template-header-handles.ts. What a call tells the review is in its outcome. Paging is about a
--   client that follows the cursors of a listing, Names and Catalog about sequences of calls,
--   Edits about one edit.
-- Review: packages/server/src/domain/template-lifecycle.ts, which Templates tells of its calls.
--   The state has the templates, the waiting list and the timers of the scheduler. Decisions is
--   about the buttons of a reviewer, Approval about a template that approves itself.
-- JsonObject: packages/server/src/domain/json-object.ts, keys of JSON values.
-- SendValidation: packages/server/src/domain/template-send-validation.ts, the checks of a send of
--   a template, in their order; Parts has those of the parts, Names and Media are about what
--   passes.
-- MessageTable: packages/server/src/db/repositories/message-repository.ts, the rows of messages.
--   MessageTable.Conversations groups them by conversation.
-- Contacts: packages/server/src/db/repositories/contact-repository.ts, the table of contacts;
--   Keys is about numbers and user ids.
-- Chats: packages/server/src/domain/contact-service.ts, and message-service.ts in Chats.Sends,
--   over the tables of Contacts and MessageTable; a send is handed to StatusLadder, whose state
--   has the messages, after SendValidation has passed its template. Recipients resolves who it is
--   for, Requests is send-message-request.ts. Moves, Links and History are about a number change,
--   Loaded, LoadedIds, Mirroring and Client about the client of Store that is told of it, Accepted
--   and Stored about a send, Calls, Sending and Steps about sequences of calls.
-- StatusLadder: packages/server/src/domain/status-ladder.ts. An accepted send climbs on timers;
--   the state has the message table, the pending map and the timers of the scheduler, so that a
--   timer that goes off is a step like a manual mark. Handles and Timers are about the map and
--   the timers, Forward about the order of statuses, Marking and Climbing about marks and rungs,
--   Writes about the table. StatusLadder.ErrorPresets is message-error-presets.ts.
-- ReadReceipts: packages/server/src/domain/read-receipt-service.ts, over the message table and
--   the indicators of Typing. Twice is about a message that is read again.
-- Tokens: packages/server/src/domain/token-registry.ts with the table of
--   db/repositories/expired-token-repository.ts; a failure of `setExpired` is a value of
--   ControlPlaneError (domain/control-plane-error.ts), and the gate's is a GraphApiError.
-- Injection: packages/server/src/domain/injection-service.ts. Injection.Rules is the table of
--   db/repositories/injection-rule-repository.ts, Injection.Response the answers of
--   injection-presets.ts. Injection.evaluate_rules is the loop of `evaluate`: each request reads
--   the matching rules, counts them, and lets the first armed one fire. Injection.Endpoint is
--   `classifyEndpoint` of graph-api/injection.ts, which names the target. Visits and Evaluation
--   are about one request, Accounting about sequences of operations.
-- Store: packages/web/src/store. Store.State has the state and the actions of types.ts,
--   Store.Scope `resolveScope` of scope.ts, and Store.Messages, Store.Fold, Store.Moved and
--   Store.Reducer the functions of reducer.ts: merging messages, folding frames into collections,
--   following a contact that moves, and the reducer. The server's events reach the client as
--   WsEvent values through Store.Reducer.apply_ws_event.
-- Typing: packages/server/src/domain/typing-service.ts. Dismissals and Steps link the indicators
--   with their scheduled dismissals; Frames has the client of Store receive what is announced.
--
-- The loops are structural recursion over lists. Fuel bounds the digits of a number (Base.Chars),
-- where one more than the number is enough, and the requests of a client that pages
-- (Templates.Paging), where one more than the listed templates is enough.
--
-- Parameters: `lc` is the ICU `localeCompare` that orders contacts; `stamp` is the clock when a
-- rule is written; `format` and `iso` print times; `token_id` is the digest of a token, `derive`
-- the one behind a verification code, `digest` that of a file, `hmac` that of a body; `fresh`,
-- `wamid` and the fields of `Minted` are minted at random; `serialize` prints JSON; `world` has
-- the answers of the network. Texts are compared by their code points, which is the order of the
-- ASCII timestamps and ids the code compares.
--
-- Not modelled: validation by zod; SQL (a table is the list of its rows in insertion order, and a
-- write that a key refuses is `constraint`); HTTP routes; rendering; the URL and the local
-- storage of a scope; the content of a status webhook. One step of the ladder and one evaluation
-- of the injection rules are each taken as a whole: steps that interleave at their database calls
-- are not modelled.
pub mod Base
pub mod Shared
pub mod GraphError
pub mod ControlPlaneError
pub mod Failure
pub mod JsonObject
pub mod ByteRange
pub mod Placeholders
pub mod MessageTable
pub mod Database
pub mod Accounts
pub mod Storage
pub mod Uploads
pub mod Webhooks
pub mod Templates
pub mod Review
pub mod SendValidation
pub mod Contacts
pub mod Chats
pub mod StatusLadder
pub mod ReadReceipts
pub mod Tokens
pub mod Injection
pub mod Store
pub mod Typing
