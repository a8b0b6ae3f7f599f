-- ===== src/Lib.antt =====
-- Verification of the core of gosn-v2, a client library for Standard Notes: checklists, filters, lists
-- of items, their encryption, the synchronisation with the server, and the local cache.
--
-- The program. An item is a note, a tag, a component or one of many smaller types (items/item.go and
-- a file for each type). Items travel encrypted (EncryptedItem of items/items.go), each with a key of
-- its own that an items key encrypts; the items keys are encrypted with the master key of the session.
-- Sync of items/sync.go keeps back protected items, hands the others to syncItemsViaAPI, which puts
-- them in pages, sends each with makeSyncRequest and gathers the answers; it then resolves conflicts,
-- copies times and chooses the default items key of the session. Sync of cache/cache.go keeps items in
-- a local database: it pushes the dirty ones through items.Sync and writes the answer to the database.
-- Checklists (items/checklist.go, items/advancedChecklist.go) live in the text of notes. Filters
-- (items/filter.go) choose items of a list.
--
-- The files, by the code that they model:
--   Crypto            crypto/encryption.go: SplitContent, EncryptString, DecryptCipherText,
--                     GenerateItemKey and GenerateNonce; GenerateAuthData of auth/authentication.go.
--                     Encrypt and Decrypt, for the session in the keyring, in Crypto/Stream.
--   Auth              auth/authentication.go: the request for the parameters in Auth/Params, that for
--                     the token with the cookies in Auth/Token, SignIn and CliSignIn in Auth/SignIn,
--                     Register in Auth/Registration; the derivation of the keys, of
--                     crypto/encryption.go, and the challenge in Auth/Keys.
--   Checklist         items/checklist.go: Task and Tasklist in Checklist/Task, the methods AddTask,
--                     CompleteTask, ReopenTask, removeTask and DeleteTask in Checklist/Tasklist,
--                     NoteTextToTasks, TasksToNoteText, splitTaskText and Sort in
--                     Checklist/NoteText, sort.Slice in Checklist/SortSlice.
--   AdvancedChecklist items/advancedChecklist.go: GetGroup and the methods on tasks and groups.
--   Items             items/item.go, items/items.go and the item types: the records in Items/Types;
--                     Validate, DeDupe, RemoveUnsupported and RemoveDeleted in Items/Encrypted;
--                     UpsertReferences, UpdateItemRefs and GetMatchingItem in Items/References;
--                     items/itemEncryption.go in Items/Encryption, items/itemDecryption.go in
--                     Items/Encryption/Decryption and, with the workers, Items/Encryption/Parallel;
--                     Items.Encrypt and ReEncrypt in Items/Encryption/Lists; ParseItem and what it
--                     calls in Items/Parsing, Parse and the functions DecryptAndParse in Items/Reading.
--   Session           session/session.go: Valid and Refresh, with RequestRefreshTokenWithSession of
--                     auth/authentication.go, in Session/Refresh; AddSession, UpdateSession and
--                     ParseSessionString in Session/Keyring, GetSession in Session/Loading.
--   Filter            items/filter.go: the filters of a note for one key in Filter/NoteKeys, the loops
--                     over the filters and over the items in Filter.
--   Sync              items/sync.go: the size of a request in Sync/Batch, syncItemsViaAPI with
--                     buildRequestBody and unmarshallSyncResponse in Sync/Paging, makeSyncRequest of
--                     items/items.go in Sync/Request, the loop at the start of Sync in Sync/Guard,
--                     updateTimestampsOnSavedItems in Sync/Saved, ConflictedItems.DeDupe in
--                     Sync/Conflicts, the choice of the key in processSessionItemsKeysInSavedItems in
--                     Sync/DefaultKey, processConflicts and what it calls in Sync/Resolve,
--                     processSyncOutput in Sync/Resolve/Output, Sync as a whole in Sync/Whole,
--                     syncItems in Sync/Retries.
--   Cache             cache/cache.go: the conversions and validations in Cache/Convert, SaveCacheItems,
--                     DeleteCacheItems and CleanCacheItems in Cache/Store, mergeItemsKeysSlices and the
--                     choice of the default key in Cache/Keys, classifySyncError,
--                     validateSessionItemsKey and handleSyncError in Cache/Errors, SyncWithRetry,
--                     enforceRateLimitBackoff and the loop around items.Sync in Cache/Retry, what Sync
--                     does with the answer in Cache/Apply, validateAndCleanSyncToken in Cache/Token,
--                     ToItems in Cache/Reading, Sync from its first line to its last in Cache/Whole, as a list
--                     of steps.
--   Prelude           names, lists and Go strings as bytes, for all of them.
-- A method that changes its receiver takes the receiver and returns the new one, with the error that
-- it returns as an option. A loop is a recursion on the list, with the variables that it changes as
-- arguments. Function names are those of the code, in lower case with underscores. Where a panic
-- matters, Outcome tells it from an error.
--
-- What is an argument, because it is not code of the repository: sort.Slice (SortSlice: an ordered
-- rearrangement, which need not be stable), the order in which a Go map is gone through (MapOrder), the
-- compiler of package regexp (Compiler), the clock and the generator of UUIDs (plain arguments of the
-- functions that call them), the encodings, the cipher and the source of randomness (Primitives, Aes and
-- KeyLibraries), encoding/json (ContentJson, SessionJson and AuthLibraries), package time (Times), the keyring
-- (Keyring), the schemas (Schema), the server of a sign in (AuthNetwork), what is typed at the terminal, the
-- order in which the results of the workers arrive (Arrival), the database (Storm, whose laws say what
-- a lookup finds after a write, with TokenStore and SyncStore), the server as seen by one request (Network, with the decoder of
-- tokens) and as seen by the paging (Server), and the package that repeats an attempt (Retrier). An
-- interface between parts of the repository is a record too: ItemCodec for the decryption with parsing
-- and the encryption of one item, Parts for what Sync calls. The files named Examples hold an instance
-- of each, with Cache/Memory and Items/Encryption/Libraries.
--
-- Bounds. A timestamp is a natural number of microseconds, a time one of nanoseconds. The arithmetic of
-- a request stays far below the bounds of int64 for lists that fit in memory, so that it is done on
-- natural numbers; a subtraction that could fall below 0 does so in no branch that is taken. The delay
-- of the rate limit is shifted and multiplied as an int64, with the wrap-around written out.
-- syncItemsViaAPI calls itself, and ends only if the server does not send cursor tokens for ever; it
-- runs on fuel, and out_of_fuel is a fault of its own. A request moves at least one item on where items
-- are left, so that fuel for one step more than there are items does for a server with no cursor token.
-- makeSyncRequest has
-- one context of 30 seconds for all its attempts, against which the delays between them are counted.
-- The writes to the database take batches of 500; their fuel is the length of the list, and a batch
-- takes one item at least. A page size, an index and a number of retries are not negative.
--
-- What is left out: fields of type interface{}, which hold whatever the JSON holds (but for Active of a
-- component, which is read), log lines, mutexes and most delays; the call of syncItems by Sync (an
-- argument there, and items.Sync one of the cache's Sync, with what it makes of the session), getters, setters
-- and JSON codecs; the prompts for credentials and the opening of files, which are I/O.
pub mod Prelude
pub mod Crypto
pub mod Checklist
pub mod AdvancedChecklist
pub mod Cache
pub mod Items
pub mod Auth
pub mod Session
pub mod Filter
pub mod Sync
