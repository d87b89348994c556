-- ===== src/License/Policy/Table.antt =====
-- The classification of intelligence/license/policy.py, row by row, without the reasons in words.
use ip_risk_agent_v.Base.{List, [], ◌∷◌, Text, words, map, ◌++◌}
use ip_risk_agent_v.Contracts.{LicensePolicyOutcome}

abbrev strong_copyleft : List Text
strong_copyleft = words (
    "GPL-1.0-only GPL-1.0-or-later GPL-2.0-only GPL-2.0-or-later GPL-3.0-only"
    ∷ "GPL-3.0-or-later CECILL-2.0 CECILL-2.1 OSL-1.0 OSL-1.1 OSL-2.0 OSL-2.1 OSL-3.0"
    ∷ "EUPL-1.0 EUPL-1.1 EUPL-1.2 Sleepycat NPOSL-3.0 NGPL SimPL-2.0 LiLiQ-Rplus-1.1"
    ∷ "CERN-OHL-S-2.0" ∷ [])

abbrev network_copyleft : List Text
network_copyleft = words (
    "AGPL-1.0-only AGPL-1.0-or-later AGPL-3.0-only AGPL-3.0-or-later SSPL-1.0 RPL-1.1"
    ∷ "RPL-1.5 CPAL-1.0 RPSL-1.0 CAL-1.0" ∷ [])

abbrev use_restricted : List Text
use_restricted = words (
    "BUSL-1.1 Elastic-2.0 PolyForm-Noncommercial-1.0.0 PolyForm-Small-Business-1.0.0"
    ∷ "CC-BY-NC-1.0 CC-BY-NC-2.0 CC-BY-NC-2.5 CC-BY-NC-3.0 CC-BY-NC-4.0 CC-BY-NC-SA-1.0"
    ∷ "CC-BY-NC-SA-2.0 CC-BY-NC-SA-2.5 CC-BY-NC-SA-3.0 CC-BY-NC-SA-4.0 CC-BY-NC-ND-3.0"
    ∷ "CC-BY-NC-ND-4.0 CC-BY-ND-3.0 CC-BY-ND-4.0" ∷ [])

abbrev weak_copyleft : List Text
weak_copyleft = words (
    "LGPL-2.0-only LGPL-2.0-or-later LGPL-2.1-only LGPL-2.1-or-later LGPL-3.0-only"
    ∷ "LGPL-3.0-or-later MPL-1.0 MPL-1.1 MPL-2.0 MPL-2.0-no-copyleft-exception EPL-1.0"
    ∷ "EPL-2.0 CDDL-1.0 CDDL-1.1 CPL-1.0 IPL-1.0 APSL-2.0 SISSL CECILL-C MS-RL APSL-1.0"
    ∷ "APSL-1.1 APSL-1.2 SPL-1.0 CUA-OPL-1.0 Motosoto Nokia OSET-PL-2.1 CATOSL-1.1"
    ∷ "LPL-1.0 LPL-1.02 RSCPL APL-1.0 LiLiQ-R-1.1 CERN-OHL-W-2.0"
    ∷ "CAL-1.0-Combined-Work-Exception" ∷ [])

abbrev share_alike : List Text
share_alike = words (
    "CC-BY-SA-1.0 CC-BY-SA-2.0 CC-BY-SA-2.5 CC-BY-SA-3.0 CC-BY-SA-4.0 ODbL-1.0"
    ∷ "GFDL-1.1-only GFDL-1.1-or-later GFDL-1.2-only GFDL-1.2-or-later GFDL-1.3-only"
    ∷ "GFDL-1.3-or-later OFL-1.0 OFL-1.1 OFL-1.1-RFN OFL-1.1-no-RFN" ∷ [])

abbrev conditional : List Text
conditional =
    words ("JSON QPL-1.0 Artistic-1.0 Artistic-1.0-Perl Artistic-1.0-cl8 SGI-B-1.1 Watcom-1.0" ∷ [])

abbrev renaming : List Text
renaming = words ("LPPL-1.3c LPPL-1.3a IPA OGTSL" ∷ [])

abbrev permissive : List Text
permissive = words (
    "MIT MIT-CMU MIT-Modern-Variant MIT-advertising MIT-feh MIT-open-group X11"
    ∷ "X11-distribute-modifications-variant BSD-1-Clause BSD-2-Clause BSD-2-Clause-Views"
    ∷ "BSD-3-Clause BSD-3-Clause-Clear BSD-4-Clause BSD-4-Clause-UC BSD-Source-Code"
    ∷ "Apache-1.0 Apache-1.1 Apache-2.0 ISC Zlib zlib-acknowledgement Libpng libpng-2.0"
    ∷ "NCSA PostgreSQL Python-2.0 Python-2.0.1 PSF-2.0 AFL-1.1 AFL-1.2 AFL-2.0 AFL-2.1"
    ∷ "AFL-3.0 Artistic-2.0 BSL-1.0 ZPL-2.0 ZPL-2.1 MS-PL W3C W3C-19980720 W3C-20150513"
    ∷ "CC-BY-1.0 CC-BY-2.0 CC-BY-2.5 CC-BY-3.0 CC-BY-4.0 curl Vim Ruby PHP-3.0 PHP-3.01"
    ∷ "TCL UPL-1.0 HPND HPND-sell-variant ICU Unicode-DFS-2016 FTL IJG SMLNJ bzip2-1.0.6"
    ∷ "Xnet OpenSSL AAL BSD-2-Clause-Patent BSD-3-Clause-LBNL BSD-3-Clause-Open-MPI"
    ∷ "BlueOak-1.0.0 CNRI-Python ECL-1.0 ECL-2.0 EFL-1.0 EFL-2.0 EUDatagrid Entessa Fair"
    ∷ "Intel Jam LiLiQ-P-1.1 MirOS MulanPSL-2.0 Multics NASA-1.3 NTP Naumen OLDAP-2.8"
    ∷ "Unicode-3.0 VSL-1.0 WordNet CERN-OHL-P-2.0 Net-SNMP Nunit libtiff Info-ZIP"
    ∷ "SGI-B-2.0 Spencer-99 NAIST-2003 mpich2 Adobe-Glyph Bitstream-Vera" ∷ [])

abbrev public_domain : List Text
public_domain = words (
    "0BSD CC0-1.0 Unlicense WTFPL MIT-0 blessing NIST-PD PDDL-1.0 CC-PDDC SAX-PD" ∷ "Beerware Zed"
    ∷ [])

-- The items of `_OUTCOME_BY_ID`, in the order in which they are put in.
abbrev classified_as : LicensePolicyOutcome → List Text → List (Text × LicensePolicyOutcome)
classified_as outcome identifiers = map (λ identifier. (identifier, outcome)) identifiers

unfoldable pub outcome_items : List (Text × LicensePolicyOutcome)
outcome_items =
    classified_as LicensePolicyOutcome.policy_conflict strong_copyleft
    ++ (classified_as LicensePolicyOutcome.policy_conflict network_copyleft
        ++ (classified_as LicensePolicyOutcome.policy_conflict use_restricted
            ++ (classified_as LicensePolicyOutcome.review_required weak_copyleft
                ++ (classified_as LicensePolicyOutcome.review_required share_alike
                    ++ (classified_as LicensePolicyOutcome.review_required conditional
                        ++ (classified_as LicensePolicyOutcome.review_required renaming
                            ++ (classified_as LicensePolicyOutcome.notice_required permissive
                                ++ (classified_as LicensePolicyOutcome.no_action
                                    public_domain))))))))
