-- ===== src/Lib.antt =====
-- The web frontend of Bracket, the tournament manager in frontend/src: what its pages show of a
-- tournament, to whom, what the organizers' forms and editor let them do, and what a session keeps.
--
-- The program keeps a session in the browser (app.tsx, hooks.ts) and loads a tournament
-- (app/api.ts) through a query cache (app/query-client.ts) and a generated client (openapi). It
-- decides which page the address shows and to whom (app/pages/tournament-page.tsx, app.tsx),
-- flattens and sorts the matches (app/utils.ts), and hands them to sections: the schedule and the
-- overview, the standings, the drawn brackets (app/bracket-adapter.ts), the detail of a team, and
-- the organizers' management, roster and editor of rounds and slots.
--
-- Files, and the code each is about; a child of a file holds laws of its definitions, or a part of
-- them that its own first lines name. Paths start at frontend/src.
--
--   Base and its children: Boolean tests, lists, integers, texts, stable sorting, decimal numbers
--     and maps as lists of pairs. No code of the repository.
--   Model: the data that the API sends, from openapi/types.gen.ts.
--   Inputs: hasTeam, inputTeamId, involvesTeam, isBracket, hasBracketView, isEmptySlot,
--     activeTeamInputs and inputLabel of app/utils.ts.
--   Matches: isScored, matchWinner, matchStatus, isStageHappeningNow and nextMatch of app/utils.ts.
--   Schedule: flattenMatches and compareMatchesByTime of app/utils.ts, the matches of
--     TournamentView, and the lists of app/sections/tournament-schedule.tsx and
--     tournament-overview.tsx.
--   Bracket: app/bracket-adapter.ts, whole.
--   Standings: stageItemStandings of app/utils.ts and the tables of
--     app/sections/tournament-standings.tsx.
--   Tournament: normalizeDashboardEndpoint, publicTournamentPath and tournamentPhase of app/utils.ts;
--     Tournament/Dates: formatDateTime, formatMatchTime and tournamentDateLabel.
--   Url: isNumericIdentifier, getApiBaseUrl and getErrorMessage of app/utils.ts.
--   Slots: slotValue, optionValue and slotBody of app/sections/stage-item-slots.tsx.
--   Slots/Select: StageItemSlots and SlotSelect, with the choice that is being saved.
--   Rounds: app/sections/stage-item-rounds.tsx: sortedRounds, playedCount, pairKey, stageItemStatus,
--     and what StageItemRounds, NextSwissRound, DraftRound and AddPairingForm compute.
--   Rounds/Actions: what these components show, and the requests that their buttons send.
--   Sections: MyTeamPanel, OverviewSection and sideClass of app/sections/tournament-overview.tsx,
--     ScheduleSection and BigScreenSchedule, and BracketSection of tournament-bracket.tsx.
--   Sections/Tables: StandingsSection of tournament-standings.tsx and StageItemVisualization of
--     tournament-overview.tsx.
--   Cards: app/components, the cards of a match, the links of a team and the drawn bracket's clicks.
--   Teams: app/sections/tournament-teams.tsx, the directory of teams, and the matches, the record and
--     the places of a team.
--   Home: app/pages/home-page.tsx, the tournaments that the first page lists.
--   Forms: the schemas of openapi/zod.gen.ts that the organizers' forms use, and what a submitted
--     form and a confirmed button send.
--   Management: app/sections/tournament-management.tsx, the forms for rankings, settings and stages.
--   Roster: app/sections/tournament-roster.tsx, the forms for teams and players.
--   Api: fetchTournament, fetchTournamentBundle, withoutDraftRounds and the interceptor of
--     app/api.ts, with the handler that app.tsx gives it.
--   Accounts: app/pages/auth-pages.tsx, user-page.tsx, clubs-page.tsx and new-tournament-form.tsx, the
--     forms of accounts, events (which the code calls clubs) and new tournaments.
--   Session: the stored session of app.tsx and hooks.ts, and the pages that sign in and out.
--   Queries: app/query-client.ts, what a change marks to be loaded again, and the keys of queries;
--     Queries/Metas: what the mutations of the pages tell the user; Queries/Cached and
--     its tables (Queries/Table, Queries/Mutations): what the options objects of
--     openapi/@tanstack/react-query.gen.ts make of the API's functions.
--   Openapi: openapi/core/pathSerializer.gen.ts, the addresses of core/utils.gen.ts, and the table of
--     the requests of openapi/sdk.gen.ts (Openapi/Endpoints) and of their types in
--     openapi/types.gen.ts (Openapi/RequestTypes).
--   HttpClient: openapi/client/utils.gen.ts, core/auth.gen.ts and beforeRequest of
--     client/client.gen.ts, the address and the headers of a request, with the configuration that
--     app/api.ts gives the client.
--   Streams: openapi/core/serverSentEvents.gen.ts, the parser of a stream of events, and in
--     Streams/Client its loop of attempts.
--   Page, Page/Content and Page/Chrome: the routes of app.tsx, TournamentPage, TournamentView, the
--     tabs and the header of app/pages/tournament-page.tsx.
--   Page/Routes: the router, the layout and the failed page of app.tsx, and TopNav of app/ui.tsx.
--   Examples and its children: a small tournament on which the definitions run.
--
-- State and operations. Data structures of the source are records and data types with its fields;
-- Map and Record are lists of pairs; Array.sort is a stable insertion sort with the source's
-- comparison. The pairing form is a record with one function per event, and its histories are an
-- indexed type. A page's form or button is an event that answers with the request it sends, or
-- none. The browser of a session is a record of the session, the query cache, the notices and the
-- address; each event maps it to the next, and `Session.run` follows a list of events from the
-- opened page. Loading passes a record of the browser's state (session, requests sent, notices)
-- through each request, and an error is a value that ends the function as the exception does. A
-- stream of events is a list of actions, made from the list of the network's answers to its
-- attempts.
--
-- Numbers. Ids, counts and scores are natural numbers, which JavaScript holds exactly below 2^53;
-- where the code reads a number back from a text, that bound is a hypothesis. A difference of dates
-- or ids, and a number that is typed into a form, is an integer, or none for NaN. Texts are lists
-- of character codes. Every function of the program ends by structural recursion; the digits of a
-- number (Base/Decimal) are written on fuel that is one above the number, which has no more digits.
--
-- Parameters. The clock, the reading and the printing of dates (Date, date-fns), Number on texts
-- that are not plain decimal integers, the printing of points, encodeURIComponent, the order of
-- names, the search of match-sorter, the query library's matching of keys, JSON.parse,
-- JSON.stringify, Number.parseInt, btoa, the hooks of a stream and the API's answers are arguments
-- of the definitions that use them. The checks of the schema library are a record with its
-- documented laws (Forms).
--
-- Not modelled: markup and styling, formatting with Intl, the state that the form library keeps
-- while a form is typed into, the generated client's call of axios and its serialisation of bodies,
-- and the Python backend. Of two requests that run together and both fail, the model reports the
-- error of the first.
pub mod Base
pub mod Model
pub mod Inputs
pub mod Matches
pub mod Schedule
pub mod Bracket
pub mod Standings
pub mod Tournament
pub mod Url
pub mod Slots
pub mod Rounds
pub mod Accounts
pub mod Api
pub mod Page
pub mod Sections
pub mod Session
pub mod Home
pub mod Teams
pub mod Cards
pub mod Queries
pub mod Forms
pub mod Management
pub mod Roster
pub mod Openapi
pub mod Streams
pub mod HttpClient
pub mod Examples
