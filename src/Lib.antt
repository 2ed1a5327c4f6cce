-- ===== src/Lib.antt =====
-- Postal: the clients of a service that publishes posts to social platforms.
--
-- Parts. Postal is a Go backend with two clients in TypeScript, a web app and a mobile app. Of both
-- apps this library models the HTTP client, the error normalization and the data hooks over the
-- query cache, the composers, and the screens that publish, schedule, connect, pay and manage
-- members. A screen asks a hook for data; it calls the HTTP client, makes a
-- value or a normalized error of the reply, and tells the query cache what a mutation has changed;
-- the HTTP client adds the CSRF token and refreshes the session once where it has expired, or the
-- bearer token on the phone; the composer keeps a draft and saves it through the hooks.
--
-- Files. What the parts share stands in Prelude (library names, dictionaries, texts as code units),
-- ApiError (the backend's error envelope), Schema (the values of the HTTP contract,
-- web/src/api/schema.d.ts) and Query (a hook as a call, a reading of the reply and effects on the
-- cache; Query/Cache is the interface of the cache). Publish is what the web app's dialog and the
-- phone's sheet promise when a draft is published. Of the web app:
--   Web/ApiError     web/src/lib/api-error.ts (normalizeError) and
--                    web/src/features/auth/form-errors.ts (applyServerErrors)
--   Web/Cookie       readCookie of web/src/api/client.ts
--   Web/Http         the CSRF token and the tests of web/src/api/client.ts that send nothing
--   Web/Client       csrfToken, refreshSession and apiFetch of web/src/api/client.ts; its module
--                    variable `refreshing` is the field `refreshing`. Web/Client/SingleFlight is the
--                    same variable under interleaving calls, as a step relation
--   Web/Data         web/src/data, one file each; useX is use_x. Web/Data/Keys and Mutations
--                    collect the hooks
--   Web/Platforms    web/src/config/platforms.tsx
--   Web/Links        firstURL of web/src/data/posts.ts
--   Web/Composer     web/src/features/composer/composer.tsx, channel-picker.tsx and media-attach.tsx:
--                    the state hooks are the record Editor, an event handler is a function on it.
--                    Session is the editor with its save in flight, Shorten the link shortener
--   Web/Hints        what the composer shows beside the text, with variant-editor.tsx
--   Web/Format       web/src/lib/format.ts
--   Web/Logger       web/src/lib/logger.ts
--   Web/Schedule     web/src/features/schedule: Dialog, Calendar, JobItem and Slots
--   Web/Drafts       web/src/features/composer/drafts-list.tsx
--   Web/ComposeScreen  web/src/features/composer/compose-screen.tsx and utm-preview.tsx
--   Web/Wallet       web/src/features/wallet/wallet-screen.tsx
--   Web/Workspace    web/src/stores/workspace.ts and its hook
--   Web/Members      web/src/features/members: Access is member-channel-access.tsx, Add the form,
--                    the checkboxes and the activity feed
--   Web/Channels     web/src/features/channels: the button, the form for Telegram, and Callback,
--                    the page that an identity provider redirects to
--   Web/Auth         web/src/features/auth: Forms, Resend and Verify
--   Web/Integrations web/src/features/integrations/integrations-screen.tsx
--   Web/Dashboard    web/src/features/dashboard/overview-widgets.tsx
-- Of the mobile app:
--   Mobile/ApiError  mobile/src/lib/api-error.ts
--   Mobile/Session   mobile/src/lib/secure-session.ts
--   Mobile/Client    refreshSession and apiFetch of mobile/src/api/client.ts, authedFetch of
--                    mobile/src/data/governance.ts (the same steps send an upload and connect a
--                    channel by hand), and the request of useLogout
--   Mobile/Data      mobile/src/data, one file each
--   Mobile/Platforms mobile/src/config/platforms.tsx
--   Mobile/Compose   mobile/src/features/compose/compose-screen.tsx: the editor's state, what a tap
--                    does to it, and saving
--   Mobile/Publish   mobile/src/features/schedule/publish-sheet.tsx
--   Mobile/Drafts    the saved posts of compose-screen.tsx, which open that sheet
--   Mobile/Calendar  mobile/src/app/(tabs)/calendar.tsx
--   Mobile/Channels  mobile/src/app/(tabs)/channels.tsx; Connect is
--                    mobile/src/features/channels/use-connect-flow.ts
--   Mobile/Members   Access is mobile/src/features/members/member-channel-access.tsx, Screen
--                    mobile/src/app/(tabs)/more/members.tsx
--   Mobile/Wallet    mobile/src/app/(tabs)/more/wallet.tsx
--   Mobile/Workspace mobile/src/stores/workspace.ts and its hook
--   Mobile/Auth      mobile/src/app/(auth) and the button that sends the e-mail again
-- Tests runs the definitions and the theorems at concrete inputs.
--
-- State. A function that changes state takes it and returns it. `fetch`, the cookie text,
-- `decodeURIComponent` and the path of a URL are fields of the record Net, over a World of any type;
-- `none` stands for a rejected promise. The server's part of a save is the record Server, and the
-- query cache is the record QueryCache with the documented behaviour of TanStack Query as laws.
-- A handler with an await is two functions, up to the await and behind it, and what happens in
-- between is a step of its own; `pending` stands for the mutation's `isPending`.
--
-- Numbers and texts. Texts that the code scans are lists of UTF-16 code units, others are strings.
-- Byte sizes and lengths are natural numbers: a file has no negative size, and the divisors of
-- formatBytes are powers of two, which a double holds exactly. An amount of money is a number of
-- hundredths. Every recursion is on a list or a number, so there is no fuel. Dates are those of
-- date-fns, the locale and the clock, which are records of functions, with the documented laws of
-- date-fns as a second record.
--
-- Not modelled. The Go backend, whose answers are parameters; the generated path types; layout,
-- styles, routing and the React life cycle; the analytics screens, the media panel, the previews of
-- a post and the request proxy. The mobile client is modelled one call at a time, and a save and
-- an upload of the phone are one step each, without edits in between.
pub mod Prelude
pub mod ApiError
pub mod Schema
pub mod Query
pub mod Publish
pub mod Web
pub mod Mobile
pub mod Tests
